-- ===== src/ExitWatcher/Rounds.antt =====
-- rita/src/rita_exit/traffic_watcher/mod.rs: what a round bills one client, resets of its counters
-- included.
use mathlib.Core.Path.{subst}
use althea_rs.Prelude.{
  sym, ℕ, ◌+◌, ◌-◌, ◌*◌, ◌%◌, ◌^◌, ◌≡◌, ◌<◌, refl, ap, ◌∙◌, ltb, some, [], ◌∷◌, arith,
  if◌then◌else◌,
}
use althea_rs.Prelude.Int.{ℤ, pos, ◌-ℤ◌}
use althea_rs.Prelude.Maps.{HashMap, get, insert, get-insert_self}
use althea_rs.AltheaTypes.{Identity, identity_key}
use althea_rs.TrafficWatcher.Keys.{ip_key}
use althea_rs.TrafficWatcher.Watch.{Debts}
use althea_rs.ExitWatcher.{
  WgUsage, Usages, refreshed, prepare_usage_history, moved, bill_one, bill_input, bill_output,
}

-- The bytes that are billed down and up, by the counters and the history of a client.
abbrev pub billed : WgUsage → WgUsage → ℕ × ℕ
billed bytes history =
    if ltb bytes.upload history.upload
    then (bytes.download, 2 ^ 64 + bytes.upload - history.upload)
    else if ltb bytes.download history.download
    then (bytes.download, bytes.upload - history.upload)
    else (bytes.download - history.download, bytes.upload - history.upload)

moved-billed :
    (bytes history : WgUsage)
    → bytes.upload < 2 ^ 64
    → bytes.download < 2 ^ 64
    → history.upload < 2 ^ 64
    → history.download < 2 ^ 64
    → let h = refreshed bytes history in
      (moved bytes.download h.download ≡ (billed bytes history).0)
      × (moved bytes.upload h.upload ≡ (billed bytes history).1)
unfolding refreshed moved
moved-billed bytes history a b c d = ground arith

module _ (identities : HashMap ℕ Identity) (destinations : HashMap ℕ ℕ) where
  bill_one-known :
      (value : ℕ → WgUsage → ℕ) (seen : WgUsage → WgUsage) (key : ℕ) (debts : Debts)
      (usage_history : Usages) (id : Identity) (dest : ℕ) (history : WgUsage) (debt : ℤ)
      → get key identities ≡ some id
      → get key destinations ≡ some dest
      → get key usage_history ≡ some history
      → get id debts ≡ some debt
      → bill_one identities destinations value seen key (debts, usage_history) ≡ (
        insert id (debt -ℤ pos (value dest history)) debts,
        insert key (seen history) usage_history,
      )
  unfolding bill_one
  bill_one-known value seen key debts usage_history id dest history debt i d h e =
      rw (i, d, h, e, bill_one) refl

  prepared :
      (key : ℕ) (bytes history : WgUsage) (usage_history : Usages)
      → get key usage_history ≡ some history
      → get key (prepare_usage_history ((key, bytes) ∷ []) usage_history)
        ≡ some (refreshed bytes history)
  unfolding prepare_usage_history
  prepared key bytes history usage_history e =
      rw (e, prepare_usage_history) (get-insert_self key (refreshed bytes history) usage_history)

  pub bill_output-billed :
      (our_price key : ℕ) (bytes history : WgUsage) (debts : Debts) (usage_history : Usages)
      (id : Identity) (dest : ℕ) (debt : ℤ)
      → get key identities ≡ some id
      → get key destinations ≡ some dest
      → get key usage_history ≡ some history
      → get id debts ≡ some debt
      → bytes.upload < 2 ^ 64
      → bytes.download < 2 ^ 64
      → history.upload < 2 ^ 64
      → history.download < 2 ^ 64
      → let counters : Usages = (key, bytes) ∷ [] in
        let (down, up) = billed bytes history in
        let after = bill_output identities destinations our_price counters (
          bill_input identities destinations our_price counters
            (debts, prepare_usage_history counters usage_history)) in
        (get id after.0
          ≡ some (debt -ℤ pos (our_price * down) -ℤ pos ((dest + our_price) % 2 ^ 64 * up)))
        × (get key after.1 ≡ some bytes)
  unfolding bill_input bill_output
  bill_output-billed our_price key bytes history debts usage_history id dest debt i d h e a b c f =
      let m = prepare_usage_history ((key, bytes) ∷ []) usage_history in
      let r = refreshed bytes history in
      let (same_down, same_up) = moved-billed bytes history a b c f in
      let debt' = debt -ℤ pos (our_price * moved bytes.download r.download) in
      let r' : WgUsage = record r { download = bytes.download } in
      let first =
        bill_one-known (λ dest history. our_price * moved bytes.download history.download)
          (λ history. record history { download = bytes.download }) key debts m id dest r debt i d
          (prepared key bytes history usage_history h) e in
      let second =
        bill_one-known
          (λ dest history. (dest + our_price) % 2 ^ 64 * moved bytes.upload history.upload)
          (λ history. record history { upload = bytes.upload }) key (insert id debt' debts)
          (insert key r' m) id dest r' debt' i d (get-insert_self key r' m)
          (get-insert_self id debt' debts) in
      let both =
        ap (bill_output identities destinations our_price ((key, bytes) ∷ [])) first ∙ second in
      subst
        (λ after.
          (get id after.0
            ≡ some (
                debt
                -ℤ pos (our_price * (billed bytes history).0)
                -ℤ pos ((dest + our_price) % 2 ^ 64 * (billed bytes history).1)))
          × (get key after.1 ≡ some bytes))
        (sym both)
        (
          get-insert_self id
                (debt' -ℤ pos ((dest + our_price) % 2 ^ 64 * moved bytes.upload r.upload))
                (insert id debt' debts)
              ∙ ap (λ n. some (debt' -ℤ pos ((dest + our_price) % 2 ^ 64 * n))) same_up
              ∙ ap
                  (λ n. some (
                    debt
                    -ℤ pos (our_price * n)
                    -ℤ pos ((dest + our_price) % 2 ^ 64 * (billed bytes history).1)))
                  same_down,
          get-insert_self key bytes (insert key r' m),
        )
