-- ===== src/Audit/Redaction.antt =====
-- internal/audit/event.go: sanitised metadata is accepted by validation.
use gigi_dc.Prelude.{
  String, not, map, keep, if◌then◌else◌, Bool-cases, inl, inr, ◌≡◌, refl, ap, ◌∙◌, false, Option,
  none, some, [], ◌∷◌, arith, trim,
}
use gigi_dc.Prelude.Unicode.{Unicode, codes, map-to_lower_ascii}
use gigi_dc.Audit.{
  Event, Metadata, validate, sanitize_metadata, sanitize_entries, is_sensitive_metadata,
  redacted_metadata_value, sensitive_lower, any_sensitive,
}

redacted_lower : sensitive_lower (codes "[redacted]") ≡ false
unfolding sensitive_lower
redacted_lower = refl

module _ (u : Unicode) where
  redacted_not_sensitive : is_sensitive_metadata u redacted_metadata_value ≡ false
  unfolding is_sensitive_metadata trim
  redacted_not_sensitive =
      ap sensitive_lower (map-to_lower_ascii u (codes "[REDACTED]") refl) ∙ redacted_lower

  entries_clean : (m : Metadata) → any_sensitive u (some (sanitize_entries u m)) ≡ false
  unfolding sanitize_entries any_sensitive
  entries_clean [] = refl
  entries_clean ((k, v) ∷ m) = ground (
    arith,
    entries_clean m,
    redacted_not_sensitive,
    is_sensitive_metadata u k,
    is_sensitive_metadata u v,
  )

  entries_kept : (m : Metadata) → any_sensitive u (some m) ≡ false → sanitize_entries u m ≡ m
  unfolding sanitize_entries any_sensitive
  entries_kept [] h = refl
  entries_kept ((k, v) ∷ m) h = ground (arith, entries_kept m)

  -- An entry as it is shown: its value only where that is not sensitive.
  abbrev pub shown : String × String → String × String
  shown e = (e.0, if is_sensitive_metadata u e.1 then "[REDACTED]" else e.1)

  entries_shown :
      (m : Metadata)
      → sanitize_entries u m ≡ map shown (keep (λ e. not (is_sensitive_metadata u e.0)) m)
  unfolding sanitize_entries
  entries_shown [] = refl
  entries_shown ((k, v) ∷ m) = elim (Bool-cases (is_sensitive_metadata u k)) [
    | inl b ↦ rw b (entries_shown m)
    | inr b ↦ rw b (elim (Bool-cases (is_sensitive_metadata u v)) [
      | inl c ↦ rw c (ap (λ rest. (k, "[REDACTED]") ∷ rest) (entries_shown m))
      | inr c ↦ rw c (ap (λ rest. (k, v) ∷ rest) (entries_shown m))
    ])
  ]

  -- Redaction leaves no sensitive key or value. It drops exactly the entries whose key is sensitive, replaces exactly the sensitive values of the others by the mark, and keeps the rest in order; metadata without anything sensitive stays as it is, and no metadata stays none.
  pub sanitize_metadata_exact :
      (m : Option Metadata)
      → (any_sensitive u (sanitize_metadata u m) ≡ false)
        × ((sanitize_metadata u m ≡ elim m [
          | none ↦ none
          | some entries ↦ some (map shown (keep (λ e. not (is_sensitive_metadata u e.0)) entries))
        ])
            × (any_sensitive u m ≡ false → sanitize_metadata u m ≡ m))
  unfolding sanitize_metadata any_sensitive
  sanitize_metadata_exact none = (refl, (refl, λ h. refl))
  sanitize_metadata_exact (some m) =
      (entries_clean m, (ap some (entries_shown m), λ h. ap some (entries_kept m h)))

  -- Redacted metadata is never a reason for an event to be rejected: the event is accepted, or
  -- refused with the same error, as the event without metadata.
  pub validate-sanitize_metadata :
      (e : Event)
      → validate u (record e { metadata = sanitize_metadata u e.metadata })
        ≡ validate u (record e { metadata = none })
  unfolding validate
  validate-sanitize_metadata e = rw (sanitize_metadata_exact e.metadata).0 refl
