-- ===== src/Agent/Context/Allowed.antt =====
-- internal/agent/context.go over internal/contextbroker/fetcher.go and internal/capability/evaluator.go:
-- who gets the context of a channel, and how much of it.
use gigi_dc.Prelude.{
  ℕ, List, map, trim, String, [], ◌≡◌, ◌≤◌, refl, subst, sym, ◌||◌, true, false, not, Option, none,
  some, Error, ok, refuse_if, bind_ok, refuse_ok, ok_eq, ◌>>◌, is_empty, ltb, arith, inl, inr, ◌⊎◌,
  Bool-cases,
}
use gigi_dc.Capability.{Decision}
use gigi_dc.Capability.Evaluator.{GrantStore, check}
use gigi_dc.Capability.Evaluator.Decisions.{Permits, check_exact}
use gigi_dc.ContextBroker.{Pack}
use gigi_dc.ContextBroker.Packer.{effective_max_chars, pack_snippets, empty_pack}
use gigi_dc.ContextBroker.Packer.Budget.{IsWithin, build_pack-IsWithin}
use gigi_dc.ContextBroker.Fetcher.{
  ChannelRecentRequest, RecentMemoryStore, RecentRequest, clamp_limit, SearchResult, snippet_of,
  normalize_channel_recent_request, recent_of, fetch_recent,
}
use gigi_dc.Agent.{Request}
use gigi_dc.Agent.Runner.{is_channel_context_scope}
use gigi_dc.Agent.Context.{
  ChannelContextFetcher, context_subject, allowed_or_denied, checked_by, fetch_from, fetch_context,
  or_default, is_guild_mention,
}

module _ (hash : String → String) (format_time : ℕ → String) (messages : RecentMemoryStore)
    (grants : GrantStore) where
  -- The fetcher over the capability evaluator and the fetcher of recent messages.
  abbrev pub composed : ℕ → ℕ → ChannelContextFetcher
  composed limit max_chars = record {
    source = some (fetch_recent hash format_time (some messages));
    checker = some (check (some grants));
    limit = limit;
    max_chars = max_chars;
  }

  -- The store was asked for the last messages of anyone in the given guild and channel, 1 to 25.
  abbrev pub IsAsked : String → String → RecentRequest → Type 0
  IsAsked guild_id channel_id asked =
      ((ltb 0 asked.limit ≡ true) × (asked.limit ≤ 25))
      × (((asked.guild_id ≡ trim guild_id) × (asked.channel_id ≡ trim channel_id))
          × ((asked.author_user_id ≡ "")
              × ((is_empty asked.guild_id ≡ false) × (is_empty asked.channel_id ≡ false))))

  -- The pack is made of the messages that the store gave for such a request, and of nothing else.
  abbrev pub IsRecent : String → String → ℕ → Pack → Type 0
  IsRecent guild_id channel_id max_chars p =
      (asked : RecentRequest) × (IsAsked guild_id channel_id asked
        × ((results : List SearchResult) × ((messages asked ≡ ok results)
              × (p ≡ pack_snippets hash (map (snippet_of hash format_time) results) max_chars))))

  allowed_ok :
      (answer : Decision × Option Error)
      → allowed_or_denied answer ≡ ok tt
      → answer.0.allowed ≡ true
  allowed_ok (d, some e) h = cc
  allowed_ok (d, none) h = ground (arith, h)

  clamp_limit-le : (limit : ℕ) → (ltb 0 (clamp_limit limit) ≡ true) × (clamp_limit limit ≤ 25)
  unfolding clamp_limit
  clamp_limit-le limit = (ground arith, ground arith)

  fetch_recent-IsAsked :
      (raw : ChannelRecentRequest) (p : Pack)
      → trim raw.author_user_id ≡ ""
      → fetch_recent hash format_time (some messages) raw ≡ ok p
      → IsWithin (effective_max_chars raw.max_chars) p
        × IsRecent raw.guild_id raw.channel_id raw.max_chars p
  unfolding fetch_recent normalize_channel_recent_request pack_snippets
  fetch_recent-IsAsked raw p anyone h =
      let request = normalize_channel_recent_request raw in
      let guild = refuse_ok (is_empty request.guild_id) "guild ID is required" _ p h in
      let channel = refuse_ok (is_empty request.channel_id) "channel ID is required" _ p guild.1 in
      let read = bind_ok (messages (recent_of request)) _ p channel.1 in
      (
        subst (IsWithin (effective_max_chars raw.max_chars)) (ok_eq _ p read.1.1)
            (build_pack-IsWithin hash _),
        (
          recent_of request,
          (
            (clamp_limit-le raw.limit, ((refl, refl), (anyone, (guild.0, channel.0)))),
            (read.0, (read.1.0, sym (ok_eq _ p read.1.1))),
          ),
        ),
      )

  no_author : trim "" ≡ ""
  unfolding trim
  no_author = refl

  own_limit :
      (max_chars : ℕ) → effective_max_chars (or_default max_chars 2500) ≡ or_default max_chars 2500
  unfolding effective_max_chars
  own_limit max_chars = ground arith

  -- Where a pack is fetched for the scope of a channel, the capability rules permit the request's user to read the memory of the request's guild, the pack is made of the messages, at least 1 and at most 25 asked for, that the store gave for that guild and the request's channel, and it keeps to the fetcher's limit of characters, 2500 where it has none. For another scope the pack is empty.
  pub fetch_context-IsWithin :
      (limit max_chars : ℕ) (r : Request) (p : Pack)
      → fetch_context (composed limit max_chars) r ≡ ok p
      → ((is_channel_context_scope r.context_scope ≡ false) × (p ≡ empty_pack []))
        ⊎ (((reason : _) × Permits grants (context_subject r) "memory.read.guild" reason)
            × (IsWithin (or_default max_chars 2500) p
                × IsRecent r.guild_id r.channel_id (or_default max_chars 2500) p))
  unfolding fetch_context
  fetch_context-IsWithin limit max_chars r p h =
      elim (Bool-cases (is_channel_context_scope r.context_scope)) [
        | inr b ↦ inl (b, sym (ok_eq _ p (rw b at h)))
        | inl b ↦
            let started : (refuse_if
                    (not (is_guild_mention r.surface)
                      || is_empty r.guild_id
                      || is_empty r.channel_id)
                    "guild channel context is required"
                  >> fetch_from (composed limit max_chars) (composed limit max_chars).source r)
                ≡ ok p =
              rw b at h in
            let placed =
              refuse_ok
                (not (is_guild_mention r.surface) || is_empty r.guild_id || is_empty r.channel_id)
                "guild channel context is required" _ p started in
            let checked = bind_ok (checked_by (some (check (some grants))) r) _ p placed.1 in
            let allowed =
              allowed_ok (check (some grants) (context_subject r) "memory.read.guild")
                checked.1.0 in
            let fetched = fetch_recent-IsAsked _ p no_author checked.1.1 in
            inr (
              (_, (check_exact grants (context_subject r) "memory.read.guild" _).0 (allowed, refl)),
              (subst (λ n. IsWithin n p) (own_limit max_chars) fetched.0, fetched.1),
            )
      ]
