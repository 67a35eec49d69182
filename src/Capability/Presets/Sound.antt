-- ===== src/Capability/Presets/Sound.antt =====
-- internal/capability/registry.go: presets hold known capabilities in normal form.
use Prim.Native.String.{len}
use gigi_dc.Prelude.{
  ℕ, String, ◌≡◌, refl, ◌==◌, eq_iff, Bool, true, ◌&&◌, ◌||◌, not, some, List, [], ◌∷◌, ok, arith,
  trim, is_empty, all, any, All, ltb, eqb,
}
use gigi_dc.Prelude.Unicode.{Unicode, codes, ascii_lower, ascii_digit}
use gigi_dc.Capability.{Capability, normalize, capability_rune}
use gigi_dc.Capability.Presets.{
  Preset, known_capabilities, known_presets, find_preset, preset_capabilities,
}

abbrev plain_rune : ℕ → Bool
plain_rune r =
    ltb r 128
    && ((ascii_lower r || ascii_digit r) || (eqb r b'.' || eqb r b':' || eqb r b'_' || eqb r b'-'))

plain_runes :
    (u : Unicode) (s : List ℕ) → all plain_rune s ≡ true → all (capability_rune u) s ≡ true
plain_runes u [] h = refl
plain_runes u (r ∷ s) h = ground (arith, plain_runes u s, u.is_lower_ascii r, u.is_digit_ascii r)

is_plain : Capability → Bool
is_plain c =
    trim c == c && (not (is_empty c) && (not (ltb 128 (len c)) && all plain_rune (codes c)))

normalize_plain : (u : Unicode) (c : Capability) → is_plain c ≡ true → normalize u c ≡ ok c
unfolding normalize is_plain
normalize_plain u c h =
    let same : trim c ≡ c = (eq_iff (trim c) c).0 (ground arith) in
    rw same (ground (arith, plain_runes u (codes c)))

is_known : Capability → Bool
is_known c = any (λ k. k == c) known_capabilities

is_good : Capability → Bool
is_good c = is_known c && is_plain c

find_good :
    (ps : List Preset) (name : String) (caps : List Capability)
    → all (λ (p : Preset). all is_good p.capabilities) ps ≡ true
    → find_preset ps name ≡ some caps
    → all is_good caps ≡ true
unfolding find_preset
find_good [] name caps h e = cc
find_good (p ∷ ps) name caps h e = ground (arith, find_good ps name caps)

presets_good : all (λ (p : Preset). all is_good p.capabilities) known_presets ≡ true
unfolding is_good is_known is_plain known_capabilities known_presets trim
presets_good = refl

-- What a preset grants is a known capability, and is its own normal form.
abbrev pub IsGrantable : Unicode → Capability → Type 0
IsGrantable u c = (any (λ k. k == c) known_capabilities ≡ true) × (normalize u c ≡ ok c)

good→All : (u : Unicode) (cs : List Capability) → all is_good cs ≡ true → All (IsGrantable u) cs
unfolding is_good is_known
good→All u [] h = tt
good→All u (c ∷ cs) h =
    ((ground arith, normalize_plain u c (ground arith)), good→All u cs (ground arith))

-- Whatever preset is asked for by name, every capability that it gives is in the list of known
-- capabilities, and normalisation accepts it and leaves it as it is.
pub preset_capabilities-IsGrantable :
    (u : Unicode) (name : String) (caps : List Capability)
    → preset_capabilities name ≡ some caps
    → All (IsGrantable u) caps
unfolding preset_capabilities
preset_capabilities-IsGrantable u name caps h =
    good→All u caps (find_good known_presets name caps presets_good h)
