-- ===== src/ContextBroker/Packer/Tests.antt =====
-- The packer on small lists of snippets, with the identity for the hash.
use gigi_dc.Prelude.{
  ltb, rune_count, Bool-cases, inl, inr, String, ◌≡◌, refl, false, some, [], ◌∷◌, is_empty, trim,
  if◌then◌else◌, ◌==◌, map,
}
use gigi_dc.Prelude.Maps.{lookup, insert}
use gigi_dc.ContextBroker.{Snippet, BuildRequest, ContextItem, OmittedContext, omit_unchanged, Pack}
use gigi_dc.ContextBroker.Packer.{
  normalize_snippet, prioritize_snippets, truncate_runes, copy_seen, effective_max_chars,
  empty_pack, source_id_of, fingerprint_of, restore_handle_of, append_item, place, build_step,
  build_loop, build_pack,
}
use gigi_dc.ContextBroker.Packer.Budget.{IsWithin, build_pack-IsWithin}
use gigi_dc.ContextBroker.Packer.Sources.{source, fingerprint, build_step_remembers}
use gigi_dc.ContextBroker.Packer.Placed.{shows}
use gigi_dc.ContextBroker.Packer.Hidden.{IsHash, IsHidden, budget_drop_never_shown}

abbrev plain : String → String
plain s = s

abbrev snippet : String → String → Snippet
snippet id text = record {
  id = id;
  source = "memory";
  channel_id = "c";
  author_id = "a";
  text = text;
  created_at = "";
  pinned = false;
  stale = false;
}

abbrev request : BuildRequest
request = record {
  snippets =
      snippet "1" " hello " ∷ snippet "2" "" ∷ snippet "3" "a longer text" ∷ snippet "4" "x" ∷ [];
  previous = [];
  max_chars = 12;
}

packed_texts :
    map (λ (i : ContextItem). i.snippet.text) (build_pack plain request).items
    ≡ "hello" ∷ "a lo..." ∷ []
unfolding build_pack build_loop build_step place append_item truncate_runes normalize_snippet
    prioritize_snippets copy_seen effective_max_chars source_id_of fingerprint_of restore_handle_of
    trim lookup insert
packed_texts = refl

packed_again :
    map
      (λ (o : OmittedContext). o.status)
      (build_pack plain
        (record request { previous = (build_pack plain request).next_state })).omitted
    ≡ omit_unchanged ∷ omit_unchanged ∷ []
unfolding build_pack build_loop build_step place append_item truncate_runes normalize_snippet
    prioritize_snippets copy_seen effective_max_chars source_id_of fingerprint_of restore_handle_of
    trim lookup insert
packed_again = refl

build_pack-IsWithin_example : IsWithin 12 (build_pack plain request)
unfolding effective_max_chars
build_pack-IsWithin_example = build_pack-IsWithin plain request

abbrev full_pack : Pack
full_pack = record (empty_pack []) { chars = 10 }

build_step_remembers_example :
    lookup "memory:1" (build_step plain 12 (snippet "1" "hello") full_pack).0.next_state ≡ (
      if is_empty (normalize_snippet (snippet "1" "hello")).text
      then lookup "memory:1" full_pack.next_state
      else if source plain (snippet "1" "hello") == "memory:1"
      then some (fingerprint plain (snippet "1" "hello"))
      else lookup "memory:1" full_pack.next_state)
build_step_remembers_example =
    build_step_remembers plain 12 (snippet "1" "hello") full_pack "memory:1"

-- Two sums, by the length of the text.
abbrev two_sums : String → String
two_sums s = if ltb (rune_count s) 30 then "a1" else "b2"

two_sums-IsHash : IsHash two_sums
unfolding trim
two_sums-IsHash s = elim (Bool-cases (ltb (rune_count s) 30)) [
  | inl b ↦ rw b (refl, refl)
  | inr b ↦ rw b (refl, refl)
]

-- The second snippet finds one character left.
abbrev crowded : BuildRequest
crowded = record {
  snippets = snippet "1" "hello world" ∷ snippet "9" "dropped" ∷ [];
  previous = [];
  max_chars = 12;
}

abbrev roomy : BuildRequest
roomy = record { snippets = snippet "9" "dropped" ∷ []; previous = []; max_chars = 4000 }

budget_drop_never_shown_example :
    (shows "memory:9" (build_pack two_sums crowded).items ≡ false)
    × IsHidden two_sums two_sums-IsHash "memory:9"
        (build_pack two_sums crowded).next_state
        (roomy ∷ roomy ∷ [])
unfolding build_pack build_loop build_step place append_item truncate_runes normalize_snippet
    prioritize_snippets copy_seen effective_max_chars source_id_of fingerprint_of restore_handle_of
    trim lookup insert
budget_drop_never_shown_example =
    budget_drop_never_shown two_sums two_sums-IsHash "memory:9" "a1" crowded (roomy ∷ roomy ∷ [])
      (λ e. cc, (λ e. (refl, refl), tt)) ((λ e. (refl, refl), tt), ((λ e. (refl, refl), tt), tt))
      refl
