-- ===== src/Agent/FollowUpStore/Tests.antt =====
-- The store of follow-up runs, with one run saved and loaded.
use gigi_dc.Prelude.{
  ◌+◌, ◌≤◌, ◌≡◌, refl, true, false, none, some, List, [], ◌∷◌, inr, length, arith,
}
use gigi_dc.Agent.{Request, RunSnapshot, guild_mention}
use gigi_dc.Agent.FollowUpStore.{
  new_memory_follow_up_store, save, load, copy_snapshot, follow_up_key,
}
use gigi_dc.Agent.FollowUpStore.Saved.{IsSound}
use gigi_dc.Agent.FollowUpStore.Sound.{
  FollowUpCall, save_call, load_call, after_store_calls, after_store_calls-le, save_then_load,
}

abbrev request : Request
request = record {
  surface = guild_mention;
  guild_id = "g1";
  channel_id = "c1";
  actor_user_id = "u1";
  role_ids = [];
  has_administrator = false;
  context_scope = "";
  text = "what next";
  raw_text = "what next";
  prior_run = none;
  context_pack = none;
}

abbrev snapshot : RunSnapshot
snapshot = record {
  run_id = " r1 ";
  intent = "recent";
  results = [];
  response_text = "three";
  context_state = (" a", "f") ∷ [];
}

abbrev calls : List FollowUpCall
calls = save_call 5 request snapshot ∷ load_call 9 request ∷ []

after_store_calls-le_example :
    IsSound (after_store_calls calls new_memory_follow_up_store)
    × (length (after_store_calls calls new_memory_follow_up_store).items ≤ 1000)
after_store_calls-le_example = after_store_calls-le calls (ground arith)

save_then_load_example :
    (load 9 request (save 5 request snapshot new_memory_follow_up_store)).0
    ≡ some (copy_snapshot (copy_snapshot snapshot))
unfolding follow_up_key copy_snapshot gigi_dc.Prelude.trim
save_then_load_example =
    save_then_load new_memory_follow_up_store (ground arith) (tt, (tt, (tt, inr (omega arith)))) 5 9
      request snapshot refl refl
