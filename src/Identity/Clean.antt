-- ===== src/Identity/Clean.antt =====
-- internal/identity/resolver.go: the roles that a resolution lists, and the events it refuses.
use gigi_dc.Prelude.{
  String, ◌==◌, ◌≡◌, refl, eq_iff, Bool, true, false, ◌&&◌, ◌||◌, Option, none, some, List, [], ◌∷◌,
  push, any, any-push, not, is_nil, All, All-push, Error, Result, ok, err, trim, trim-trim,
  is_empty, is_blank, arith, inl, inr, Bool-cases, if◌then◌else◌, sym, subst, ap, ◌∙◌, ◌⊎◌,
}
use gigi_dc.Identity.{
  event, fetched, Event, Member, MemberSource, Resolution, clean_onto, clean_role_ids, resolve,
  resolve_named, after_lookup, speaks_for_itself, nobody, event_subject, member_subject,
}

abbrev pub NoDup : List String → Type 0
NoDup [] = Unit
NoDup (x ∷ xs) = (any (λ y. x == y) xs ≡ false) × NoDup xs

-- No role twice, none blank and none with white space around it.
abbrev pub IsClean : List String → Type 0
IsClean roles = NoDup roles × All (λ role. (trim role ≡ role) × (is_empty role ≡ false)) roles

NoDup-push :
    (xs : List String) (y : String) → NoDup xs → any (λ x. x == y) xs ≡ false → NoDup (push xs y)
NoDup-push [] y n a = (refl, tt)
NoDup-push (x ∷ xs) y n a =
    (ground (arith, any-push (λ z. x == z) xs y, n.0, a), NoDup-push xs y n.1 (ground (arith, a)))

clean_onto-IsClean :
    (cleaned role_ids : List String) → IsClean cleaned → IsClean (clean_onto cleaned role_ids)
unfolding clean_onto
clean_onto-IsClean cleaned [] c = c
clean_onto-IsClean cleaned (raw ∷ role_ids) c =
    elim (Bool-cases (is_blank raw || any (λ kept. kept == trim raw) cleaned)) [
      | inl b ↦
          subst IsClean
            (sym (ap (λ x. clean_onto (if x then cleaned else push cleaned (trim raw)) role_ids) b))
            (clean_onto-IsClean cleaned role_ids c)
      | inr b ↦
          let pushed : IsClean (push cleaned (trim raw)) = (
            NoDup-push cleaned (trim raw) c.0 (ground (arith, b)),
            All-push _ cleaned (trim raw) c.1 (trim-trim raw, ground (arith, b)),
          ) in
          subst IsClean
            (sym (ap (λ x. clean_onto (if x then cleaned else push cleaned (trim raw)) role_ids) b))
            (clean_onto-IsClean (push cleaned (trim raw)) role_ids pushed)
    ]

skipped :
    (role value : String) (cleaned : List String)
    → is_empty role ≡ false
    → (is_empty value || any (λ kept. kept == value) cleaned) ≡ true
    → (any (λ kept. kept == role) cleaned || (value == role)) ≡ any (λ kept. kept == role) cleaned
skipped role value cleaned n b = elim (Bool-cases (value == role)) [
  | inl same ↦
      let kept =
        subst (λ v. (is_empty v || any (λ kept. kept == v) cleaned) ≡ true)
          ((eq_iff value role).0 same) b in
      ground (arith, kept, n, same)
  | inr other ↦ ground (arith, other)
]

-- The roles that were kept and those that are read, none lost and none added.
clean_onto-any :
    (role : String) (cleaned role_ids : List String)
    → is_empty role ≡ false
    → any (λ kept. kept == role) (clean_onto cleaned role_ids)
      ≡ (any (λ kept. kept == role) cleaned || any (λ raw. trim raw == role) role_ids)
unfolding clean_onto
clean_onto-any role cleaned [] n = ground arith
clean_onto-any role cleaned (raw ∷ role_ids) n =
    elim (Bool-cases (is_blank raw || any (λ kept. kept == trim raw) cleaned)) [
      | inl b ↦
          ap
            (λ x.
              any (λ kept. kept == role)
                (clean_onto (if x then cleaned else push cleaned (trim raw)) role_ids))
            b
          ∙ ground
              (arith, clean_onto-any role cleaned role_ids n, skipped role (trim raw) cleaned n b)
      | inr b ↦
          ap
            (λ x.
              any (λ kept. kept == role)
                (clean_onto (if x then cleaned else push cleaned (trim raw)) role_ids))
            b
          ∙ ground (
            arith,
            clean_onto-any role (push cleaned (trim raw)) role_ids n,
            any-push (λ kept. kept == role) cleaned (trim raw),
          )
    ]

-- The cleaned roles are those of the list without the white space around them, each once and none blank.
pub clean_role_ids_exact :
    (role_ids : List String)
    → IsClean (clean_role_ids role_ids)
      × ((role : String)
          → is_empty role ≡ false
          → any (λ kept. kept == role) (clean_role_ids role_ids)
            ≡ any (λ raw. trim raw == role) role_ids)
unfolding clean_role_ids
clean_role_ids_exact role_ids =
    (clean_onto-IsClean [] role_ids (tt, tt), λ role n. clean_onto-any role [] role_ids n)

-- The event is its own witness: it is of no guild, or it names a role that is not blank, or says that its user owns or administers the guild.
abbrev pub is_self_evident : Event → Bool
is_self_evident e =
    is_blank e.guild_id
    || any (λ role. not (is_blank role)) e.role_ids
    || e.is_guild_owner
    || e.has_administrator

-- Why an event resolves to nobody.
abbrev pub IsRefusal : Option MemberSource → Event → Type 0
IsRefusal source e =
    (is_blank e.user_id ≡ true)
    ⊎ (((e.require_guild && is_blank e.guild_id) ≡ true)
        ⊎ ((is_self_evident e ≡ false)
            × ((from : MemberSource) × ((source ≡ some from)
                  × ((x : Error) × (from (trim e.guild_id) (trim e.user_id) ≡ err x))))))

-- Where the rights of a resolution come from: the event itself, if there is no source to ask or the event is its own witness, and otherwise the member that the source gives for its guild and user.
abbrev pub IsOrigin : Option MemberSource → Event → Resolution → Type 0
IsOrigin source e r =
    (((source ≡ none) ⊎ (is_self_evident e ≡ true))
      × ((r.source ≡ event) × (r.subject ≡ event_subject e)))
    ⊎ ((is_self_evident e ≡ false)
        × ((from : MemberSource) × ((source ≡ some from)
              × ((m : Member) × ((from (trim e.guild_id) (trim e.user_id) ≡ ok m)
                    × ((r.source ≡ fetched) × (r.subject ≡ member_subject e m)))))))

-- What a resolution says.
abbrev pub IsFaithful : Option MemberSource → Event → Resolution × Option Error → Type 0
IsFaithful source e (r, some x) =
    IsRefusal source e × ((r.resolved ≡ false) × ((r.ambiguous ≡ true) × (r.subject ≡ nobody)))
IsFaithful source e (r, none) =
    ((is_blank e.user_id ≡ false) × ((e.require_guild && is_blank e.guild_id) ≡ false))
    × ((r.resolved ≡ true) × (IsClean r.subject.role_ids × IsOrigin source e r))

is_nil-push : (xs : List String) (y : String) → is_nil (push xs y) ≡ false
is_nil-push [] y = refl
is_nil-push (x ∷ xs) y = refl

listed : (p : String → Bool) (xs : List String) → any p xs ≡ true → is_nil xs ≡ false
listed p [] h = ground (arith, h)
listed p (x ∷ xs) h = refl

is_nil-clean_onto :
    (cleaned role_ids : List String)
    → is_nil (clean_onto cleaned role_ids)
      ≡ (is_nil cleaned && not (any (λ role. not (is_blank role)) role_ids))
unfolding clean_onto
is_nil-clean_onto cleaned [] = ground arith
is_nil-clean_onto cleaned (raw ∷ role_ids) = elim (Bool-cases (is_blank raw)) [
  | inl b ↦ rw b (is_nil-clean_onto cleaned role_ids)
  | inr b ↦ elim (Bool-cases (any (λ kept. kept == trim raw) cleaned)) [
    | inl k ↦
        rw (b, k)
          (ground (
            arith,
            is_nil-clean_onto cleaned role_ids,
            listed (λ kept. kept == trim raw) cleaned k,
          ))
    | inr k ↦
        rw (b, k)
          (ground (
            arith,
            is_nil-clean_onto (push cleaned (trim raw)) role_ids,
            is_nil-push cleaned (trim raw),
          ))
  ]
]

speaks_for_itself-lem : (e : Event) → speaks_for_itself e ≡ is_self_evident e
unfolding clean_role_ids
speaks_for_itself-lem e = ground (arith, is_nil-clean_onto [] e.role_ids)

module _ (source : Option MemberSource) (e : Event)
    (named : (is_blank e.user_id ≡ false)
      × ((e.require_guild && is_blank e.guild_id) ≡ false)) where
  looked_up-IsFaithful :
      (from : MemberSource)
      → source ≡ some from
      → is_self_evident e ≡ false
      → (answer : Result Member) → from (trim e.guild_id) (trim e.user_id) ≡ answer
      → IsFaithful source e (after_lookup e answer)
  looked_up-IsFaithful from s b (ok m) q = (
    named,
    (refl, ((clean_role_ids_exact m.role_ids).0, inr (b, (from, (s, (m, (q, (refl, refl)))))))),
  )
  looked_up-IsFaithful from s b (err x) q =
      (inr (inr (b, (from, (s, (x, q))))), (refl, (refl, refl)))

resolve_named-IsFaithful :
    (source : Option MemberSource) (e : Event)
    → (is_blank e.user_id ≡ false) × ((e.require_guild && is_blank e.guild_id) ≡ false)
    → IsFaithful source e (resolve_named source e)
resolve_named-IsFaithful none e named =
    (named, (refl, ((clean_role_ids_exact e.role_ids).0, inl (inl refl, (refl, refl)))))
resolve_named-IsFaithful (some from) e named = elim (Bool-cases (speaks_for_itself e)) [
  | inl b ↦ rw b (
    named,
    (
      refl,
      (
        (clean_role_ids_exact e.role_ids).0,
        inl (inr (sym (speaks_for_itself-lem e) ∙ b), (refl, refl)),
      ),
    ),
  )
  | inr b ↦ rw b (
      looked_up-IsFaithful (some from) e named from refl (sym (speaks_for_itself-lem e) ∙ b) _ refl)
]

-- With an error an event resolves to nobody, and it lacks a user, or a guild that it must have, or it is not its own witness and the source fails for its trimmed guild and user. Without one it lacks neither, the roles of its subject are clean, and the subject is the event's own exactly where there is no source or the event is its own witness, and otherwise is made of the member that the source gives.
pub resolve-IsFaithful :
    (source : Option MemberSource) (e : Event) → IsFaithful source e (resolve source e)
unfolding resolve
resolve-IsFaithful source e = elim (Bool-cases (is_blank e.user_id)) [
  | inl b ↦ rw b (inl b, (refl, (refl, refl)))
  | inr b ↦ rw b (elim (Bool-cases (e.require_guild && is_blank e.guild_id)) [
    | inl c ↦ rw c (inr (inl c), (refl, (refl, refl)))
    | inr c ↦ rw c (resolve_named-IsFaithful source e (b, c))
  ])
]
