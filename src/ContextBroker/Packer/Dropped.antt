-- ===== src/ContextBroker/Packer/Dropped.antt =====
-- internal/contextbroker/packer.go: what becomes of a snippet that the budget leaves out.
use gigi_dc.Prelude.{
  ℕ, String, ◌≡◌, refl, ap, sym, subst, ◌∙◌, ◌==◌, ◌⊎◌, inl, inr, eq_refl, eq_iff, true, false,
  ◌&&◌, ◌||◌, not, some, List, [], ◌∷◌, arith, is_empty, is_some, or_else, Bool-cases, All,
}
use gigi_dc.Prelude.Maps.{lookup, insert}
use gigi_dc.ContextBroker.{Snippet, Pack}
use gigi_dc.ContextBroker.Packer.{normalize_snippet, build_step, build_loop}
use gigi_dc.ContextBroker.Packer.Sources.{
  source, fingerprint, build_step_remembers, place_unchanged,
}
use gigi_dc.ContextBroker.Packer.Placed.{shows, drops, place_other, place_dropped}

module _ (hash : String → String) (k fp : String) where
  -- A snippet that, if it is of the source, is not pinned and has the fingerprint.
  abbrev pub IsVersion : Snippet → Type 0
  IsVersion t = (source hash t == k) ≡ true → (t.pinned ≡ false) × (fingerprint hash t ≡ fp)

  abbrev pub Remembers : Pack → Type 0
  Remembers p = lookup k p.next_state ≡ some fp

  abbrev pub IsHiding : Pack → Type 0
  IsHiding p = Remembers p × (shows k p.items ≡ false)

  -- Before any drop: the source is remembered or not shown.
  abbrev pub IsOpen : Pack → Type 0
  IsOpen p = (Remembers p ⊎ (shows k p.items ≡ false)) × (drops k p.omitted ≡ false)

  -- The pack at the step that handles a snippet with text.
  abbrev noted : Snippet → Pack → Pack
  noted t p = record p { next_state = insert (source hash t) (fingerprint hash t) p.next_state }

  Remembers-step :
      (max_chars : ℕ) (t : Snippet) (p : Pack)
      → IsVersion t
      → Remembers p
      → Remembers (build_step hash max_chars t p).0
  Remembers-step max_chars t p v h = elim (Bool-cases (source hash t == k)) [
    | inl b ↦ build_step_remembers hash max_chars t p k ∙ ground (arith, b, h, v b)
    | inr b ↦ build_step_remembers hash max_chars t p k ∙ ground (arith, b, h)
  ]

  -- A step that is of another source, or of a snippet without text, keeps what was known.
  open_step_other :
      (max_chars : ℕ) (t : Snippet) (p : Pack)
      → (is_empty (normalize_snippet t).text || not (source hash t == k)) ≡ true
      → (lookup k (build_step hash max_chars t p).0.next_state ≡ lookup k p.next_state)
        × ((shows k (build_step hash max_chars t p).0.items ≡ shows k p.items)
            × (drops k (build_step hash max_chars t p).0.omitted ≡ drops k p.omitted))
  open_step_other max_chars t p h = elim (Bool-cases (is_empty (normalize_snippet t).text)) [
    | inl b ↦ (
      build_step_remembers hash max_chars t p k ∙ ground (arith, b),
      unfold build_step in rw b (refl, refl),
    )
    | inr b ↦
        let e : (source hash t == k) ≡ false = ground (arith, b, h) in
        (
          build_step_remembers hash max_chars t p k ∙ ground (arith, b, e),
          unfold build_step in
              rw b (
                place_other hash k max_chars (normalize_snippet t) (source hash t)
                  (fingerprint hash t) (lookup (source hash t) p.next_state) (noted t p) e),
        )
  ]

  -- What a step of the source does: it remembers, and where it drops it stops and shows nothing.
  open_step_version :
      (max_chars : ℕ) (t : Snippet) (p : Pack)
      → is_empty (normalize_snippet t).text ≡ false
      → (source hash t == k) ≡ true
      → (t.pinned ≡ false) × (fingerprint hash t ≡ fp)
      → IsOpen p
      → Remembers (build_step hash max_chars t p).0
        × ((drops k (build_step hash max_chars t p).0.omitted ≡ true)
            → (shows k (build_step hash max_chars t p).0.items ≡ false)
              × ((build_step hash max_chars t p).1 ≡ true))
  open_step_version max_chars t p text same v o = (
    build_step_remembers hash max_chars t p k ∙ ground (arith, text, same, v),
    λ dropped.
        let cut =
          place_dropped hash k max_chars (normalize_snippet t) (source hash t) (fingerprint hash t)
            (lookup (source hash t) p.next_state) (noted t p) (unfold normalize_snippet in v.0) o.1
            (unfold build_step in (rw text at dropped)) in
        let lost : (is_some (lookup k p.next_state) && or_else (lookup k p.next_state) "" == fp)
            ≡ false =
          subst
            (λ i.
              (is_some (lookup i p.next_state) && or_else (lookup i p.next_state) "" == fp) ≡ false)
            ((eq_iff (source hash t) k).0 same)
            (subst
              (λ f.
                (is_some (lookup (source hash t) p.next_state)
                  && or_else (lookup (source hash t) p.next_state) "" == f)
                ≡ false)
              v.1 cut.1.1) in
        (
          unfold build_step in rw (text, cut.0) (not_shown o.0 lost),
          unfold build_step in rw text cut.1.0,
        ),
  )
    where
      not_shown :
          (Remembers p ⊎ (shows k p.items ≡ false))
          → (is_some (lookup k p.next_state) && or_else (lookup k p.next_state) "" == fp) ≡ false
          → shows k p.items ≡ false
      not_shown (inl r) lost = absurd (ground (arith, r, lost, eq_refl fp))
      not_shown (inr n) lost = n

  IsOpen-step :
      (p q : Pack)
      → (lookup k q.next_state ≡ lookup k p.next_state)
        × ((shows k q.items ≡ shows k p.items) × (drops k q.omitted ≡ drops k p.omitted))
      → IsOpen p
      → IsOpen q
  IsOpen-step p q e (inl r, d) = (inl (e.0 ∙ r), e.1.1 ∙ d)
  IsOpen-step p q e (inr n, d) = (inr (e.1.0 ∙ n), e.1.1 ∙ d)

  -- A loop that drops the source hides it.
  pub build_loop-IsHiding :
      (max_chars : ℕ) (snippets : List Snippet) (p : Pack)
      → All IsVersion snippets
      → IsOpen p
      → drops k (build_loop hash max_chars snippets p).omitted ≡ true
      → IsHiding (build_loop hash max_chars snippets p)
  unfolding build_loop
  build_loop-IsHiding max_chars [] p v o d = absurd (ground (arith, o, d))
  build_loop-IsHiding max_chars (t ∷ rest) p v o d =
      let q = (build_step hash max_chars t p).0 in
      let later = build_loop-IsHiding max_chars rest q v.1 in
      elim (Bool-cases (is_empty (normalize_snippet t).text || not (source hash t == k))) [
        | inl other ↦ goes_on later (IsOpen-step p q (open_step_other max_chars t p other) o) d
        | inr same ↦
            let step =
              open_step_version max_chars t p (ground (arith, same)) (ground (arith, same))
                (v.0 (ground (arith, same))) o in
            elim (Bool-cases (drops k q.omitted)) [
              | inl b ↦ rw (step.1 b).1 (step.0, (step.1 b).0)
              | inr b ↦ goes_on later (inl step.0, b) d
            ]
      ]
    where
      goes_on :
          (IsOpen (build_step hash max_chars t p).0
            → drops k (build_loop hash max_chars rest (build_step hash max_chars t p).0).omitted
              ≡ true
            → IsHiding (build_loop hash max_chars rest (build_step hash max_chars t p).0))
          → IsOpen (build_step hash max_chars t p).0
          → drops k (build_loop hash max_chars (t ∷ rest) p).omitted ≡ true
          → IsHiding (build_loop hash max_chars (t ∷ rest) p)
      goes_on later here d = elim (Bool-cases (build_step hash max_chars t p).1) [
        | inl stop ↦ absurd (let dropped = rw stop at d in ground (arith, here.1, dropped))
        | inr on ↦ rw on (later here (rw on at d))
      ]

  -- Where the source is remembered and not shown, a loop keeps it so.
  IsHiding-step :
      (max_chars : ℕ) (t : Snippet) (p : Pack)
      → IsVersion t
      → IsHiding p
      → IsHiding (build_step hash max_chars t p).0
  IsHiding-step max_chars t p v h =
      elim (Bool-cases (is_empty (normalize_snippet t).text || not (source hash t == k))) [
        | inl other ↦
            (Remembers-step max_chars t p v h.0, (open_step_other max_chars t p other).1.0 ∙ h.1)
        | inr same ↦
            let text : is_empty (normalize_snippet t).text ≡ false = ground (arith, same) in
            let here : (source hash t == k) ≡ true = ground (arith, same) in
            let seen : lookup (source hash t) p.next_state ≡ some (fingerprint hash t) =
              ap (λ i. lookup i p.next_state) ((eq_iff (source hash t) k).0 here)
              ∙ h.0
              ∙ ap some (sym (v here).1) in
            (
              Remembers-step max_chars t p v h.0,
              unfold build_step in
                  rw (text, seen)
                    (ap (shows k)
                        (place_unchanged hash max_chars (normalize_snippet t) (source hash t)
                          (fingerprint hash t) (noted t p)
                          (unfold normalize_snippet in (v here).0)).0
                      ∙ h.1),
            )
      ]

  pub build_loop-IsHiding-kept :
      (max_chars : ℕ) (snippets : List Snippet) (p : Pack)
      → All IsVersion snippets
      → IsHiding p
      → IsHiding (build_loop hash max_chars snippets p)
  unfolding build_loop
  build_loop-IsHiding-kept max_chars [] p v h = h
  build_loop-IsHiding-kept max_chars (t ∷ rest) p v h =
      let first = IsHiding-step max_chars t p v.0 h in
      let all =
        build_loop-IsHiding-kept max_chars rest (build_step hash max_chars t p).0 v.1 first in
      elim (Bool-cases (build_step hash max_chars t p).1) [
        | inl stop ↦ rw stop first
        | inr on ↦ rw on all
      ]
