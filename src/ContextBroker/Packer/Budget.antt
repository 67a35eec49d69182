-- ===== src/ContextBroker/Packer/Budget.antt =====
-- internal/contextbroker/packer.go: the character budget of a pack.
use gigi_dc.Prelude.{
  ℕ, suc, ◌+◌, ◌-◌, ◌≤◌, ◌<◌, String, ◌≡◌, refl, ap, sym, ◌∙◌, ◌==◌, is_some, or_else, not, ◌&&◌,
  Option, List, [], ◌∷◌, arith, trim, is_empty, rune_count, take_runes, rune_count-trim,
  rune_count-take_runes, rune_count-append, length, push, length-push, All, Bool-cases, inl, inr,
  ltb,
}
use gigi_dc.ContextBroker.{Snippet, BuildRequest, ContextItem, Pack}
use gigi_dc.ContextBroker.Packer.{
  truncate_runes, normalize_snippet, prioritize_snippets, copy_seen, effective_max_chars,
  empty_pack, append_item, place, build_step, build_loop, build_pack,
}

truncate_runes_le :
    (value : String) (limit : ℕ) → 3 < limit → rune_count (truncate_runes value limit) ≤ limit
unfolding truncate_runes
truncate_runes_le value limit h = ground (
  arith,
  rune_count-append (trim (take_runes (limit - 3) value)) "...",
  rune_count-trim (take_runes (limit - 3) value),
  rune_count-take_runes (limit - 3) value,
)

-- The characters of the items.
abbrev pub total_chars : List ContextItem → ℕ
total_chars [] = 0
total_chars (item ∷ items) = item.chars + total_chars items

total_chars-push :
    (items : List ContextItem) (item : ContextItem)
    → total_chars (push items item) ≡ total_chars items + item.chars
total_chars-push [] item = omega arith
total_chars-push (i ∷ items) item = omega (arith, total_chars-push items item)

-- An item counts the characters of its text.
abbrev pub IsMeasured : ContextItem → Type 0
IsMeasured item = item.chars ≡ rune_count item.snippet.text

All-push :
    (items : List ContextItem) (item : ContextItem)
    → All IsMeasured items
    → IsMeasured item
    → All IsMeasured (push items item)
All-push [] item h m = (m, tt)
All-push (i ∷ items) item h m = (h.0, All-push items item h.1 m)

-- What holds of a pack under construction.
pub record IsWithin (max_chars : ℕ) (p : Pack) : Type 0 where
  pub fits : p.chars ≤ max_chars
  pub counted : p.chars ≡ total_chars p.items
  pub measured : All IsMeasured p.items
  pub cited : length p.citations ≡ length p.items
  pub listed : length p.snippets ≡ length p.items

module _ (hash : String → String) where
  append_item-IsWithin :
      (s : Snippet) (source_id fingerprint : String) (previous : Option String)
      → (max_chars : ℕ) (q : Pack) → q.chars ≤ max_chars
      → q.chars ≡ total_chars q.items + rune_count s.text
      → All IsMeasured q.items
      → length q.citations ≡ length q.items
      → length q.snippets ≡ length q.items
      → IsWithin max_chars (append_item hash s source_id fingerprint previous (rune_count s.text) q)
  unfolding append_item
  append_item-IsWithin s source_id fingerprint previous max_chars q f c m k l = record {
    fits = f;
    counted = c ∙ sym (total_chars-push q.items _);
    measured = All-push q.items _ m refl;
    cited = length-push q.citations _ ∙ ap suc k ∙ sym (length-push q.items _);
    listed = length-push q.snippets _ ∙ ap suc l ∙ sym (length-push q.items _);
  }

  place-IsWithin :
      (max_chars : ℕ) (s : Snippet) (source_id fingerprint : String) (previous : Option String)
      (p : Pack)
      → IsWithin max_chars p
      → IsWithin max_chars (place hash max_chars s source_id fingerprint previous p).0
  unfolding place
  place-IsWithin max_chars s source_id fingerprint previous p w =
      elim (Bool-cases (is_some previous && or_else previous "" == fingerprint && not s.pinned)) [
        | inl same ↦ rw same (record {
          fits = w.fits;
          counted = w.counted;
          measured = w.measured;
          cited = w.cited;
          listed = w.listed;
        })
        | inr other ↦ elim (Bool-cases (ltb max_chars (p.chars + rune_count s.text))) [
          | inl over ↦ elim (Bool-cases (ltb 3 (max_chars - p.chars))) [
            | inl room ↦
                rw (other, over, room)
                  (append_item-IsWithin
                    (record s { text = truncate_runes s.text (max_chars - p.chars) }) source_id
                    fingerprint previous max_chars _
                    (ground (arith, truncate_runes_le s.text (max_chars - p.chars))) (ground arith)
                    w.measured w.cited w.listed)
            | inr full ↦
                rw (other, over, full)
                  (record {
                    fits = w.fits;
                    counted = w.counted;
                    measured = w.measured;
                    cited = w.cited;
                    listed = w.listed;
                  })
          ]
          | inr fits ↦
              rw (other, fits)
                (append_item-IsWithin s source_id fingerprint previous max_chars _ (ground arith)
                  (ground arith) w.measured w.cited w.listed)
        ]
      ]

  build_step-IsWithin :
      (max_chars : ℕ) (s : Snippet) (p : Pack)
      → IsWithin max_chars p
      → IsWithin max_chars (build_step hash max_chars s p).0
  unfolding build_step
  build_step-IsWithin max_chars s p w = elim (Bool-cases (is_empty (normalize_snippet s).text)) [
    | inl blank ↦ rw blank w
    | inr text ↦ rw text (
        place-IsWithin max_chars (normalize_snippet s) _ _ _ _ (record {
          fits = w.fits;
          counted = w.counted;
          measured = w.measured;
          cited = w.cited;
          listed = w.listed;
        }))
  ]

  build_loop-IsWithin :
      (max_chars : ℕ) (snippets : List Snippet) (p : Pack)
      → IsWithin max_chars p
      → IsWithin max_chars (build_loop hash max_chars snippets p)
  unfolding build_loop
  build_loop-IsWithin max_chars [] p w = w
  build_loop-IsWithin max_chars (s ∷ rest) p w =
      let first = build_step-IsWithin max_chars s p w in
      let all = build_loop-IsWithin max_chars rest (build_step hash max_chars s p).0 first in
      elim (Bool-cases (build_step hash max_chars s p).1) [
        | inl stop ↦ rw stop first
        | inr on ↦ rw on all
      ]

  -- A pack holds at most the budgeted characters, 4000 where no budget is given. Its count is that
  -- of its items' texts, and it has one citation and one snippet for each item.
  pub build_pack-IsWithin :
      (request : BuildRequest)
      → IsWithin (effective_max_chars request.max_chars) (build_pack hash request)
  unfolding build_pack
  build_pack-IsWithin request =
      build_loop-IsWithin (effective_max_chars request.max_chars)
        (prioritize_snippets request.snippets) (empty_pack (copy_seen request.previous))
        (record { fits = omega arith; counted = refl; measured = tt; cited = refl; listed = refl })
