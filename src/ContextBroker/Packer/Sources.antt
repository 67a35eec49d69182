-- ===== src/ContextBroker/Packer/Sources.antt =====
-- internal/contextbroker/packer.go: what a pack remembers of its sources.
use gigi_dc.Prelude.{
  ℕ, String, ◌≡◌, refl, ◌==◌, eq_refl, false, Option, some, arith, is_empty, Bool-cases, inl, inr,
  if◌then◌else◌,
}
use gigi_dc.Prelude.Maps.{lookup, lookup-insert}
use gigi_dc.ContextBroker.{Snippet, Pack}
use gigi_dc.ContextBroker.Packer.{
  normalize_snippet, append_item, place, build_step, source_id_of, fingerprint_of,
}

module _ (hash : String → String) where
  pub place-next_state :
      (max_chars : ℕ) (s : Snippet) (source_id fingerprint : String) (previous : Option String)
      (p : Pack)
      → (place hash max_chars s source_id fingerprint previous p).0.next_state ≡ p.next_state
  unfolding place append_item
  place-next_state max_chars s source_id fingerprint previous p = ground arith

  -- The source and the fingerprint under which the loop handles a snippet.
  abbrev pub source : Snippet → String
  source s = source_id_of hash (normalize_snippet s)

  abbrev pub fingerprint : Snippet → String
  fingerprint s = fingerprint_of hash (normalize_snippet s)

  -- A snippet with text, whether it is packed, cut, or left out, has its fingerprint remembered
  -- under its source, and no other source's fingerprint changes; a blank one changes nothing.
  pub build_step_remembers :
      (max_chars : ℕ) (s : Snippet) (p : Pack) (k : String)
      → lookup k (build_step hash max_chars s p).0.next_state ≡ (
          if is_empty (normalize_snippet s).text
          then lookup k p.next_state
          else if source s == k
          then some (fingerprint s)
          else lookup k p.next_state)
  unfolding build_step
  build_step_remembers max_chars s p k = elim (Bool-cases (is_empty (normalize_snippet s).text)) [
    | inl blank ↦ rw blank refl
    | inr text ↦
        rw text (rw place-next_state (lookup-insert (source s) k (fingerprint s) p.next_state))
  ]

  -- A snippet that is not pinned and whose fingerprint is remembered is omitted as unchanged.
  pub place_unchanged :
      (max_chars : ℕ) (s : Snippet) (source_id fp : String) (p : Pack)
      → s.pinned ≡ false
      → ((place hash max_chars s source_id fp (some fp) p).0.items ≡ p.items)
        × ((place hash max_chars s source_id fp (some fp) p).1 ≡ false)
  unfolding place
  place_unchanged max_chars s source_id fp p h = ground (arith, eq_refl fp)
