-- ===== src/ContextBroker/Packer.antt =====
-- internal/contextbroker/packer.go: `BuildPack`. `hash` is the text of the first 16 hexadecimal
-- digits of a SHA-256 sum, which is an argument here. The map of seen fingerprints that the packer
-- reads is the one that it writes, since `NextState` holds the copy itself and no copy of it.
pub mod Budget
pub mod Placed
pub mod Dropped
pub mod Hidden
pub mod Sources
mod Tests
use gigi_dc.Prelude.{
  ℕ, ◌+◌, ◌-◌, String, ◌++◌, ◌==◌, Bool, true, false, ◌&&◌, ◌||◌, not, Option, none, some, List, [],
  ◌∷◌, trim, is_empty, rune_count, take_runes, itoa, ltb, leb, length, keep, append, push, or_else,
  is_some, if◌then◌else◌,
}
use gigi_dc.Prelude.Maps.{lookup, insert}
use gigi_dc.ContextBroker.{
  Snippet, Seen, BuildRequest, ContextStatus, new, changed, pinned, omit_unchanged, omit_budget,
  invalidate_previous, Citation, ContextItem, OmittedContext, ContextInvalidation, Pack,
}

unfoldable pub normalize_snippet : Snippet → Snippet
normalize_snippet s = record s {
  id = trim s.id;
  source = trim s.source;
  channel_id = trim s.channel_id;
  author_id = trim s.author_id;
  text = trim s.text;
  created_at = trim s.created_at;
}

-- Pinned snippets first, each group in its order.
unfoldable pub prioritize_snippets : List Snippet → List Snippet
prioritize_snippets snippets =
    append (keep (λ (s : Snippet). s.pinned) snippets)
      (keep (λ (s : Snippet). not s.pinned) snippets)

unfoldable pub truncate_runes : String → ℕ → String
truncate_runes value limit =
    if leb limit 0 || leb (rune_count value) limit
    then value
    else if leb limit 3
    then take_runes limit value
    else trim (take_runes (limit - 3) value) ++ "..."

-- Entries with a blank key or value are dropped, and the others trimmed.
unfoldable pub copy_seen : Seen → Seen
copy_seen [] = []
copy_seen ((key, value) ∷ rest) =
    let copied = copy_seen rest in
    if is_empty (trim key) || is_empty (trim value)
    then copied
    else insert (trim key) (trim value) copied

unfoldable pub effective_max_chars : ℕ → ℕ
effective_max_chars max_chars = if leb max_chars 0 then 4000 else max_chars

abbrev pub empty_pack : Seen → Pack
empty_pack seen = record {
  snippets = [];
  items = [];
  omitted = [];
  invalidations = [];
  citations = [];
  chars = 0;
  truncated = false;
  next_state = seen;
}

module _ (hash : String → String) where
  unfoldable pub source_id_of : Snippet → String
  source_id_of raw =
      let s = normalize_snippet raw in
      if not (is_empty s.source) && not (is_empty s.id)
      then s.source ++ (":" ++ s.id)
      else if not (is_empty s.source)
      then s.source
      else if not (is_empty s.id)
      then s.id
      else "snippet:" ++ hash s.text

  unfoldable pub fingerprint_of : Snippet → String
  fingerprint_of raw =
      let s = normalize_snippet raw in
      hash
        (source_id_of s ++ ("\0" ++ (s.author_id ++ ("\0" ++ (s.created_at ++ ("\0" ++ s.text))))))

  unfoldable pub restore_handle_of : String → String → String
  restore_handle_of source_id fingerprint =
      "ctx:" ++ hash (trim source_id ++ ("\0" ++ trim fingerprint))

  abbrev pub status_of : Snippet → Bool → ContextStatus
  status_of s differs = if s.pinned then pinned else if s.stale || differs then changed else new

  -- `appendItem`; `previous` is the fingerprint of the source in the map, if it has one.
  unfoldable pub append_item : Snippet → String → String → Option String → ℕ → Pack → Pack
  append_item s source_id fingerprint previous size p =
      let differs = is_some previous && not (or_else previous "" == fingerprint) in
      let stale_previous = not s.pinned && differs in
      let citation : Citation = record {
        label = "S" ++ itoa (length p.citations + 1);
        source_id = source_id;
        snippet_id = s.id;
        source = s.source;
        created_at = s.created_at;
      } in
      let item : ContextItem = record {
        status = status_of s differs;
        source_id = source_id;
        snippet = s;
        citation = citation;
        restore_handle = restore_handle_of source_id fingerprint;
        chars = size;
        pinned = s.pinned;
        stale_previous = stale_previous;
        stale = s.stale;
      } in
      let invalidation : ContextInvalidation = record {
        status = invalidate_previous;
        source_id = source_id;
        previous_fingerprint = or_else previous "";
        current_fingerprint = fingerprint;
        restore_handle = restore_handle_of source_id (or_else previous "");
      } in
      record p {
        invalidations =
            if stale_previous then push p.invalidations invalidation else p.invalidations;
        citations = push p.citations citation;
        items = push p.items item;
        snippets = push p.snippets s;
      }

  abbrev pub omit : ContextStatus → String → String → String → Pack → Pack
  omit status reason source_id fingerprint p = record p {
    omitted = push p.omitted (record {
      status = status;
      source_id = source_id;
      restore_handle = restore_handle_of source_id fingerprint;
      reason = reason;
    });
  }

  -- The part of the loop's body below the lookup and the write of the map; `true` is `break`.
  unfoldable pub place : ℕ → Snippet → String → String → Option String → Pack → Pack × Bool
  place max_chars s source_id fingerprint previous p =
      let size = rune_count s.text in
      let remaining = max_chars - p.chars in
      let cut = record s { text = truncate_runes s.text remaining } in
      if is_some previous && or_else previous "" == fingerprint && not s.pinned
      then (omit omit_unchanged "unchanged" source_id fingerprint p, false)
      else if ltb max_chars (p.chars + size)
      then (
        (if ltb 3 remaining
            then append_item cut source_id fingerprint previous (rune_count cut.text)
                (record p { chars = p.chars + rune_count cut.text; truncated = true })
            else omit omit_budget "budget" source_id fingerprint (record p { truncated = true })),
        true,
      )
      else (
        append_item s source_id fingerprint previous size (record p { chars = p.chars + size }),
        false,
      )

  unfoldable pub build_step : ℕ → Snippet → Pack → Pack × Bool
  build_step max_chars raw p =
      let s = normalize_snippet raw in
      let source_id = source_id_of s in
      let fingerprint = fingerprint_of s in
      if is_empty s.text
      then (p, false)
      else place max_chars s source_id fingerprint (lookup source_id p.next_state)
          (record p { next_state = insert source_id fingerprint p.next_state })

  unfoldable pub build_loop : ℕ → List Snippet → Pack → Pack
  build_loop max_chars [] p = p
  build_loop max_chars (s ∷ rest) p =
      let (p', stop) = build_step max_chars s p in
      let more = build_loop max_chars rest p' in if stop then p' else more

  unfoldable pub build_pack : BuildRequest → Pack
  build_pack request =
      build_loop (effective_max_chars request.max_chars) (prioritize_snippets request.snippets)
        (empty_pack (copy_seen request.previous))

  -- `PackSnippets`.
  unfoldable pub pack_snippets : List Snippet → ℕ → Pack
  pack_snippets snippets max_chars =
      build_pack (record { snippets = snippets; previous = []; max_chars = max_chars })
