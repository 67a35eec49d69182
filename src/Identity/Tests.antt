-- ===== src/Identity/Tests.antt =====
-- Resolution of one event.
use gigi_dc.Prelude.{String, ◌==◌, ◌≡◌, any, trim, is_empty, false, some, [], ◌∷◌, ok}
use gigi_dc.Identity.{Event, MemberSource, resolve, clean_role_ids}
use gigi_dc.Identity.Clean.{IsFaithful, IsClean, resolve-IsFaithful, clean_role_ids_exact}

abbrev event : Event
event = record {
  guild_id = "g1";
  channel_id = "c1";
  user_id = " u1";
  role_ids = [];
  is_guild_owner = false;
  has_administrator = false;
  require_guild = false;
}

abbrev members : MemberSource
members guild user = ok record {
  user_id = user;
  role_ids = " r1" ∷ "r1" ∷ "" ∷ [];
  is_guild_owner = false;
  has_administrator = false;
}

resolve-IsFaithful_example : IsFaithful (some members) event (resolve (some members) event)
resolve-IsFaithful_example = resolve-IsFaithful (some members) event

clean_role_ids_exact_example :
    IsClean (clean_role_ids (" r1" ∷ "r1" ∷ "" ∷ []))
    × ((role : String)
        → is_empty role ≡ false
        → any (λ kept. kept == role) (clean_role_ids (" r1" ∷ "r1" ∷ "" ∷ []))
          ≡ any (λ raw. trim raw == role) (" r1" ∷ "r1" ∷ "" ∷ []))
clean_role_ids_exact_example = clean_role_ids_exact (" r1" ∷ "r1" ∷ "" ∷ [])
