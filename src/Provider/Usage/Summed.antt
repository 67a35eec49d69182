-- ===== src/Provider/Usage/Summed.antt =====
-- internal/llm/provider/usage.go: what an event that is recorded adds to the sums.
use gigi_dc.Prelude.{
  ℕ, suc, ◌+◌, String, ◌==◌, ◌≡◌, refl, eq_iff, Bool, true, false, [], ◌∷◌, push, any, Error,
  Result, ok, err, trim, is_empty, is_blank, arith, inl, inr, Bool-cases, if◌then◌else◌, subst, ap,
  ◌∙◌, ok_eq,
}
use gigi_dc.Prelude.Unicode.{Unicode}
use gigi_dc.Sql.{Session, attempt, relabel}
use gigi_dc.Provider.Usage.{
  UsageEvent, UsageSummary, UsageRow, UsageRows, normalize_usage_event, null_usage_string_arg,
  usage_row, insert_usage, check_usage, then_insert, record_usage, is_of_guild, count_if, add_row,
  sum_usage, guild_usage_summary,
}

abbrev pub added : Bool → UsageRow → UsageSummary → UsageSummary
added b r s = if b then add_row r s else s

-- What a row adds, in figures.
added_tokens :
    (b : Bool) (r : UsageRow) (s : UsageSummary)
    → added b r s ≡ (
        if b
        then record s {
          input_tokens = s.input_tokens + r.event.input_tokens;
          output_tokens = s.output_tokens + r.event.output_tokens;
          total_events = s.total_events + 1;
          failed_events = s.failed_events + (if r.event.status == "failed" then 1 else 0);
        }
        else s)
added_tokens true r s =
    ap
      (λ n. record s {
        input_tokens = s.input_tokens + r.event.input_tokens;
        output_tokens = s.output_tokens + r.event.output_tokens;
        total_events = n;
        failed_events = s.failed_events + (if r.event.status == "failed" then 1 else 0);
      })
      (next s.total_events)
  where
    next : (n : ℕ) → suc n ≡ n + 1
    next n = omega arith
added_tokens false r s = refl

add_swap : (a b c : ℕ) → a + b + c ≡ a + c + b
add_swap a b c = omega arith

added_swap :
    (a b : Bool) (r x : UsageRow) (s : UsageSummary)
    → added a r (added b x s) ≡ added b x (added a r s)
added_swap true true r x s = λ i. record s {
  input_tokens = add_swap s.input_tokens x.event.input_tokens r.event.input_tokens i;
  output_tokens = add_swap s.output_tokens x.event.output_tokens r.event.output_tokens i;
  total_events = suc (suc s.total_events);
  failed_events =
      add_swap s.failed_events (count_if (x.event.status == "failed"))
        (count_if (r.event.status == "failed")) i;
}
added_swap true false r x s = refl
added_swap false true r x s = refl
added_swap false false r x s = refl

sum_usage-push :
    (guild_id : String) (rows : UsageRows) (x : UsageRow)
    → sum_usage guild_id (push rows x)
      ≡ added (is_of_guild guild_id x.guild_id) x (sum_usage guild_id rows)
unfolding sum_usage
sum_usage-push guild_id [] x = refl
sum_usage-push guild_id (r ∷ rows) x =
    ap (added (is_of_guild guild_id r.guild_id) r) (sum_usage-push guild_id rows x)
    ∙ added_swap (is_of_guild guild_id r.guild_id) (is_of_guild guild_id x.guild_id) r x
        (sum_usage guild_id rows)

same_guild :
    (g guild_id : String)
    → is_empty guild_id ≡ false
    → is_of_guild guild_id (null_usage_string_arg g) ≡ (g == guild_id)
unfolding null_usage_string_arg
same_guild g guild_id named = elim (Bool-cases (is_empty g)) [
  | inl b ↦ elim (Bool-cases (g == guild_id)) [
    | inl same ↦
        absurd
          (ground (arith, named, subst (λ x. is_empty x ≡ true) ((eq_iff g guild_id).0 same) b))
    | inr other ↦ rw (b, other) refl
  ]
  | inr b ↦ rw b refl
]

-- A healthy database.
abbrev pub healthy : UsageRows → Session UsageRows
healthy rows = record { tables = rows; faults = []; made = 0 }

inserted :
    (b : Bool) (text : Error) (x : UsageRow) (rows : UsageRows)
    → (relabel "insert usage event"
        (attempt [] (λ t. if b then err text else ok (push t x, tt)) (healthy rows))).0
      ≡ ok tt
    → (relabel "insert usage event"
        (attempt [] (λ t. if b then err text else ok (push t x, tt)) (healthy rows))).1
      ≡ healthy (push rows x)
inserted true text x rows h = cc
inserted false text x rows h = refl

module _ (u : Unicode) where
  then_insert_ok :
      (checked : Result (Unit {0})) (x : UsageRow) (rows : UsageRows)
      → (then_insert u checked x (healthy rows)).0 ≡ ok tt
      → (then_insert u checked x (healthy rows)).1 ≡ healthy (push rows x)
  unfolding insert_usage
  then_insert_ok (err e) x rows h = cc
  then_insert_ok (ok a) x rows h = inserted (any (λ r. r.id == x.id) rows) _ x rows h

  -- In a healthy database, an event that is recorded adds the tokens that it was given with, one to the count of events, and one to the count of failures if its status is failed, to the sums that the query gives for its guild, and leaves the sums of every other guild.
  pub record_then_sum :
      (new_id : String) (e : UsageEvent) (rows : UsageRows) (raw : String) (before : UsageSummary)
      → is_blank raw ≡ false
      → (guild_usage_summary raw (healthy rows)).0 ≡ ok before
      → (record_usage u new_id e (healthy rows)).0 ≡ ok tt
      → (guild_usage_summary raw (record_usage u new_id e (healthy rows)).1).0
        ≡ ok (
            if trim e.guild_id == trim raw
            then record before {
              input_tokens = before.input_tokens + e.input_tokens;
              output_tokens = before.output_tokens + e.output_tokens;
              total_events = before.total_events + 1;
              failed_events = before.failed_events + (if trim e.status == "failed" then 1 else 0);
            }
            else before)
  unfolding record_usage guild_usage_summary usage_row normalize_usage_event null_usage_string_arg
  record_then_sum new_id e rows raw before named read done =
      let x = usage_row (trim new_id) (normalize_usage_event e) in
      let wrote = then_insert_ok (check_usage u new_id e) x rows done in
      let summed : sum_usage (trim raw) rows ≡ before = ok_eq _ before (rw named at read) in
      rw (wrote, named)
        (ap ok (
          sum_usage-push (trim raw) rows x
          ∙ ap (λ b. added b x (sum_usage (trim raw) rows))
              (same_guild (trim e.guild_id) (trim raw) named)
          ∙ ap (added (trim e.guild_id == trim raw) x) summed
          ∙ added_tokens (trim e.guild_id == trim raw) x before))
