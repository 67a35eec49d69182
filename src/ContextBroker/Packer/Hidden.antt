-- ===== src/ContextBroker/Packer/Hidden.antt =====
-- internal/contextbroker/packer.go: a source that the budget leaves out, over a conversation of packs.
use gigi_dc.Prelude.{
  ℕ, String, ◌++◌, ◌≡◌, refl, sym, subst, ◌∙◌, inl, inr, eq_iff, true, false, ◌||◌, not, some, List,
  [], ◌∷◌, arith, is_empty, trim, trim-trim, trim_framed, trim_joined, is_empty-append, Bool-cases,
  All, All-keep, All-append,
}
use gigi_dc.Prelude.Maps.{lookup, insert, lookup-insert, All-insert}
use gigi_dc.ContextBroker.{Snippet, Seen, BuildRequest, Pack}
use gigi_dc.ContextBroker.Packer.{
  normalize_snippet, prioritize_snippets, copy_seen, empty_pack, source_id_of, fingerprint_of,
  build_step, build_loop, build_pack,
}
use gigi_dc.ContextBroker.Packer.Sources.{source, fingerprint}
use gigi_dc.ContextBroker.Packer.Sources.{place-next_state}
use gigi_dc.ContextBroker.Packer.Placed.{shows, drops}
use gigi_dc.ContextBroker.Packer.Dropped.{
  IsVersion, IsHiding, build_loop-IsHiding, build_loop-IsHiding-kept,
}

-- What the library's hexadecimal sums are: not empty, and without white space around them.
abbrev pub IsHash : (String → String) → Type 0
IsHash hash = (s : String) → (trim (hash s) ≡ hash s) × (is_empty (hash s) ≡ false)

-- A map that `copySeen` keeps: no key and no fingerprint is empty or has white space around it.
abbrev IsTidyText : String → Type 0
IsTidyText s = (trim s ≡ s) × (is_empty s ≡ false)

abbrev IsTidy : Seen → Type 0
IsTidy seen = All (λ e. IsTidyText e.0 × IsTidyText e.1) seen

lookup-copy_seen :
    (k : String) (seen : Seen) → IsTidy seen → lookup k (copy_seen seen) ≡ lookup k seen
unfolding copy_seen lookup
lookup-copy_seen k [] t = refl
lookup-copy_seen k ((key, value) ∷ rest) t =
    rw (t.0.0.0, t.0.0.1, t.0.1.0, t.0.1.1)
      (lookup-insert key k value (copy_seen rest)
        ∙ ground (arith, lookup-copy_seen k rest t.1, eq_iff key k, eq_iff k key))

copy_seen-IsTidy : (seen : Seen) → IsTidy (copy_seen seen)
unfolding copy_seen
copy_seen-IsTidy [] = tt
copy_seen-IsTidy ((key, value) ∷ rest) =
    elim (Bool-cases (is_empty (trim key) || is_empty (trim value))) [
      | inl b ↦ rw b (copy_seen-IsTidy rest)
      | inr b ↦ rw b (
          All-insert _ (trim key) (trim value) (copy_seen rest)
            ((trim-trim key, ground (arith, b)), (trim-trim value, ground (arith, b)))
            (copy_seen-IsTidy rest))
    ]

module _ (hash : String → String) (hex : IsHash hash) where
  trimmed_prefix : trim "snippet:" ≡ "snippet:"
  unfolding trim
  trimmed_prefix = refl

  source-IsTidy : (s : Snippet) → IsTidyText (source hash s)
  unfolding source_id_of normalize_snippet
  source-IsTidy s =
      let a = trim (trim s.source) in
      let b = trim (trim s.id) in
      elim (Bool-cases (is_empty a)) [
        | inr x ↦ elim (Bool-cases (is_empty b)) [
          | inr y ↦
              rw (x, y)
                (
                  trim_framed (trim s.source) ":" (trim s.id) x y,
                  is_empty-append a (":" ++ b) (is_empty-append ":" b y),
                )
          | inl y ↦ rw (x, y) (trim-trim (trim s.source), x)
        ]
        | inl x ↦ elim (Bool-cases (is_empty b)) [
          | inr y ↦ rw (x, y) (trim-trim (trim s.id), y)
          | inl y ↦
              rw (x, y)
                (
                  trim_joined "snippet:" (hash _) trimmed_prefix (hex _).0 refl (hex _).1,
                  is_empty-append "snippet:" (hash _) (hex _).1,
                )
        ]
      ]

  build_step-IsTidy :
      (max_chars : ℕ) (s : Snippet) (p : Pack)
      → IsTidy p.next_state
      → IsTidy (build_step hash max_chars s p).0.next_state
  unfolding build_step
  build_step-IsTidy max_chars s p t = elim (Bool-cases (is_empty (normalize_snippet s).text)) [
    | inl b ↦ rw b t
    | inr b ↦ rw b (
        subst IsTidy
          (sym (
            place-next_state hash max_chars (normalize_snippet s) (source hash s)
              (fingerprint hash s) (lookup (source hash s) p.next_state)
              (record p { next_state = insert (source hash s) (fingerprint hash s) p.next_state })))
          (All-insert _ (source hash s) (fingerprint hash s) p.next_state
            (source-IsTidy s, unfold fingerprint_of in hex _) t))
  ]

  build_loop-IsTidy :
      (max_chars : ℕ) (snippets : List Snippet) (p : Pack)
      → IsTidy p.next_state
      → IsTidy (build_loop hash max_chars snippets p).next_state
  unfolding build_loop
  build_loop-IsTidy max_chars [] p t = t
  build_loop-IsTidy max_chars (s ∷ rest) p t =
      let first = build_step-IsTidy max_chars s p t in
      let all = build_loop-IsTidy max_chars rest (build_step hash max_chars s p).0 first in
      elim (Bool-cases (build_step hash max_chars s p).1) [
        | inl stop ↦ rw stop first
        | inr on ↦ rw on all
      ]

  build_pack-IsTidy : (r : BuildRequest) → IsTidy (build_pack hash r).next_state
  unfolding build_pack
  build_pack-IsTidy r =
      build_loop-IsTidy _ (prioritize_snippets r.snippets) (empty_pack (copy_seen r.previous))
        (copy_seen-IsTidy r.previous)

  module _ (k fp : String) where
    -- The snippets of a request that are of the source are not pinned and have the fingerprint.
    abbrev pub IsSteady : BuildRequest → Type 0
    IsSteady r = All (IsVersion hash k fp) r.snippets

    prioritized :
        (r : BuildRequest) → IsSteady r → All (IsVersion hash k fp) (prioritize_snippets r.snippets)
    unfolding prioritize_snippets
    prioritized r v =
        All-append _ _ _ (All-keep _ (λ (s : Snippet). s.pinned) r.snippets v)
          (All-keep _ (λ (s : Snippet). not s.pinned) r.snippets v)

    build_pack-IsHiding :
        (r : BuildRequest)
        → IsSteady r
        → drops k (build_pack hash r).omitted ≡ true
        → IsHiding hash k fp (build_pack hash r)
    unfolding build_pack
    build_pack-IsHiding r v d =
        build_loop-IsHiding hash k fp _ (prioritize_snippets r.snippets)
          (empty_pack (copy_seen r.previous)) (prioritized r v) (inr refl, refl) d

    build_pack-IsHiding-kept :
        (r : BuildRequest)
        → IsSteady r
        → lookup k (copy_seen r.previous) ≡ some fp
        → IsHiding hash k fp (build_pack hash r)
    unfolding build_pack
    build_pack-IsHiding-kept r v e =
        build_loop-IsHiding-kept hash k fp _ (prioritize_snippets r.snippets)
          (empty_pack (copy_seen r.previous)) (prioritized r v) (e, refl)

  -- The pack that is made next in a conversation, from the state of the last one.
  abbrev pub following : Seen → BuildRequest → Pack
  following seen r = build_pack hash (record r { previous = seen })

  -- No pack of the conversation that goes on from the state has an item of the source.
  abbrev pub IsHidden : String → Seen → List BuildRequest → Type 0
  IsHidden k seen [] = Unit
  IsHidden k seen (r ∷ requests) =
      (shows k (following seen r).items ≡ false) × IsHidden k (following seen r).next_state requests

  following-IsHidden :
      (k fp : String) (seen : Seen) (later : List BuildRequest)
      → IsTidy seen
      → lookup k seen ≡ some fp
      → All (IsSteady k fp) later
      → IsHidden k seen later
  following-IsHidden k fp seen [] t e v = tt
  following-IsHidden k fp seen (r ∷ later) t e v =
      let hidden =
        build_pack-IsHiding-kept k fp (record r { previous = seen }) v.0
          (lookup-copy_seen k seen t ∙ e) in
      (
        hidden.1,
        following-IsHidden k fp (following seen r).next_state later
            (build_pack-IsTidy (record r { previous = seen })) hidden.0 v.1,
      )

  -- Where a pack leaves a source out for its budget, and the snippets of the source are not pinned and keep one fingerprint, the source has no item in that pack, nor in any later pack of the conversation, each of which starts from the state that the one before it returned, whatever their budgets and their other snippets are.
  pub budget_drop_never_shown :
      (k fp : String) (request : BuildRequest) (later : List BuildRequest)
      → IsSteady k fp request
      → All (IsSteady k fp) later
      → drops k (build_pack hash request).omitted ≡ true
      → (shows k (build_pack hash request).items ≡ false)
        × IsHidden k (build_pack hash request).next_state later
  budget_drop_never_shown k fp request later v vs d =
      let hiding = build_pack-IsHiding k fp request v d in
      (
        hiding.1,
        following-IsHidden k fp (build_pack hash request).next_state later
            (build_pack-IsTidy request) hiding.0 vs,
      )
