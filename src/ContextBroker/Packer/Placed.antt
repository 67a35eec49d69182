-- ===== src/ContextBroker/Packer/Placed.antt =====
-- internal/contextbroker/packer.go: what one branch of the loop shows and omits of one source.
use gigi_dc.Prelude.{
  ℕ, String, ◌≡◌, refl, sym, ◌∙◌, ◌==◌, inl, inr, Bool, true, false, ltb, ◌+◌, ◌-◌, rune_count,
  ◌&&◌, ◌||◌, not, Option, List, any, any-push, arith, is_some, or_else, Bool-cases,
}
use gigi_dc.ContextBroker.{Snippet, ContextStatus, omit_budget, ContextItem, OmittedContext, Pack}
use gigi_dc.ContextBroker.Packer.{append_item, place}

abbrev is_budget : ContextStatus → Bool
is_budget omit_budget = true
is_budget _ = false

-- An item of the source, and an entry that says that the budget left it out.
abbrev pub shows : String → List ContextItem → Bool
shows k items = any (λ i. i.source_id == k) items

abbrev pub drops : String → List OmittedContext → Bool
drops k omitted = any (λ o. is_budget o.status && o.source_id == k) omitted

module _ (hash : String → String) (k : String) where
  module _ (max_chars : ℕ) (s : Snippet) (source_id fingerprint : String) (previous : Option String)
      (p : Pack) where
    abbrev unchanged : Bool
    unchanged = is_some previous && or_else previous "" == fingerprint && not s.pinned

    pub place_other :
        (source_id == k) ≡ false
        → (shows k (place hash max_chars s source_id fingerprint previous p).0.items
            ≡ shows k p.items)
          × (drops k (place hash max_chars s source_id fingerprint previous p).0.omitted
              ≡ drops k p.omitted)
    unfolding place append_item
    place_other e = elim (Bool-cases unchanged) [
      | inl b ↦ rw b (refl, any-push _ p.omitted _ ∙ ground (arith, e))
      | inr b ↦ rw b (elim (Bool-cases (ltb max_chars (p.chars + rune_count s.text))) [
        | inl o ↦ rw o (elim (Bool-cases (ltb 3 (max_chars - p.chars))) [
          | inl r ↦ rw r (any-push _ p.items _ ∙ ground (arith, e), refl)
          | inr r ↦ rw r (refl, any-push _ p.omitted _ ∙ ground (arith, e))
        ])
        | inr o ↦ rw o (any-push _ p.items _ ∙ ground (arith, e), refl)
      ])
    ]

    -- A snippet is dropped where it is not remembered, with no item.
    pub place_dropped :
        s.pinned ≡ false
        → drops k p.omitted ≡ false
        → drops k (place hash max_chars s source_id fingerprint previous p).0.omitted ≡ true
        → ((place hash max_chars s source_id fingerprint previous p).0.items ≡ p.items)
          × (((place hash max_chars s source_id fingerprint previous p).1 ≡ true)
              × ((is_some previous && or_else previous "" == fingerprint) ≡ false))
    unfolding place append_item
    place_dropped free before after = elim (Bool-cases unchanged) [
      | inl b ↦ absurd (
          let kept : (drops k p.omitted || false) ≡ true =
            sym (any-push _ p.omitted _) ∙ (rw b at after) in
          ground (arith, before, kept))
      | inr b ↦ rw b (elim (Bool-cases (ltb max_chars (p.chars + rune_count s.text))) [
        | inl o ↦ rw o (elim (Bool-cases (ltb 3 (max_chars - p.chars))) [
          | inl r ↦ absurd (let dropped = rw (b, o, r) at after in ground (arith, before, dropped))
          | inr r ↦ rw r (refl, (refl, ground (arith, b, free)))
        ])
        | inr o ↦ absurd (let dropped = rw (b, o) at after in ground (arith, before, dropped))
      ])
    ]
