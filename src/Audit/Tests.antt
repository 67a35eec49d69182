-- ===== src/Audit/Tests.antt =====
-- Redaction and validation at concrete events.
use gigi_dc.Prelude.{◌≡◌, refl, false, Option, none, some, trim, map, [], ◌∷◌}
use gigi_dc.Prelude.Unicode.{ascii}
use gigi_dc.Audit.{
  is_sensitive_metadata, Event, Metadata, succeeded, validate, sanitize_metadata, any_sensitive,
  sensitive_lower,
}
use gigi_dc.Audit.Redaction.{shown, sanitize_metadata_exact, validate-sanitize_metadata}

abbrev leaky : Option Metadata
leaky = some (("note", "Bearer abc") ∷ ("API_KEY", "x") ∷ ("tool", "web.search") ∷ [])

abbrev leaky_event : Event
leaky_event = record {
  kind = "agent.tool";
  guild_id = "g";
  actor_id = "u";
  status = succeeded;
  reason = "";
  metadata = leaky;
  request_id = "";
}

leaky_redacted :
    sanitize_metadata ascii leaky ≡ some (("note", "[REDACTED]") ∷ ("tool", "web.search") ∷ [])
unfolding sanitize_metadata sensitive_lower trim
leaky_redacted = refl

sanitize_metadata_exact_example :
    (any_sensitive ascii (sanitize_metadata ascii leaky) ≡ false)
    × ((sanitize_metadata ascii leaky
          ≡ some (map (shown ascii) (("note", "Bearer abc") ∷ ("tool", "web.search") ∷ [])))
        × (any_sensitive ascii leaky ≡ false → sanitize_metadata ascii leaky ≡ leaky))
unfolding is_sensitive_metadata sensitive_lower trim
sanitize_metadata_exact_example = sanitize_metadata_exact ascii leaky

validate-sanitize_metadata_example :
    validate ascii (record leaky_event { metadata = sanitize_metadata ascii leaky })
    ≡ validate ascii (record leaky_event { metadata = none })
validate-sanitize_metadata_example = validate-sanitize_metadata ascii leaky_event
