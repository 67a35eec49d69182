-- ===== src/Plugins/RoundTrip.antt =====
-- internal/plugins/matcher.go: commands that are built and matched again.
use Prim.Native.String.{len}
use Prim.Native.String.append
use text.Mathlib.TextPositions.{len-append, slice_all, slice-append_left, slice-append_right}
use gigi_dc.Prelude.{
  String, ◌++◌, ◌≡◌, refl, true, false, some, trim, trim-trim, trim_framed, trim_spaced, is_space,
  is_blank, is_empty, Bool-cases, inl, inr, arith, eqb,
}
use gigi_dc.Prelude.Unicode.{Unicode}
use gigi_dc.Plugins.Matcher.{starts_with_space, match_command, build_command}

empty_text : (s : String) → is_empty s ≡ true → s ≡ ""
empty_text String.[] e = refl
empty_text (String.◌∷◌ c s) e = cc

spaced_text :
    (s : String) → (starts_with_space (" " ++ s) ≡ true) × (eqb (len (" " ++ s)) 0 ≡ false)
unfolding is_space
spaced_text s = (rw append.cons refl, ground (arith, len-append " " s))

module _ (u : Unicode) where
  match_command-alone : (command : String) → match_command u (trim command) command ≡ some ""
  unfolding match_command
  match_command-alone command =
      rw (trim-trim command, slice_all (trim command), u.equal_fold_refl (trim command))
        (ground arith)

  match_command-spaced :
      (command arguments : String)
      → is_blank command ≡ false
      → is_blank arguments ≡ false
      → match_command u (trim command ++ (" " ++ trim arguments)) command ≡ some (trim arguments)
  unfolding match_command
  match_command-spaced command arguments hc ha =
      rw
        (
          trim_framed command " " arguments hc ha,
          slice-append_left (trim command) (" " ++ trim arguments),
          u.equal_fold_refl (trim command),
          len-append (trim command) (" " ++ trim arguments),
          slice-append_right (trim command) (" " ++ trim arguments),
          trim_spaced arguments,
        )
        (ground (arith, spaced_text (trim arguments)))

  -- A command that is built of a trigger and arguments is matched by the trigger again and gives the arguments without the white space around them, where the trigger is not blank.
  pub match_command-build_command :
      (command arguments : String)
      → is_blank command ≡ false
      → match_command u (build_command command arguments) command ≡ some (trim arguments)
  unfolding build_command
  match_command-build_command command arguments h = elim (Bool-cases (is_blank arguments)) [
    | inl b ↦ rw (b, empty_text (trim arguments) b) (match_command-alone command)
    | inr b ↦ rw b (match_command-spaced command arguments h b)
  ]
