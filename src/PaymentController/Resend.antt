-- ===== src/PaymentController/Resend.antt =====
-- rita/src/rita_common/payment_controller/mod.rs: the chain of `ResendTxid` messages that the
-- controller sends to itself, attempt after attempt.
use althea_rs.Prelude.{
  ℕ, zero, suc, ◌+◌, ◌-◌, ◌<◌, ◌≤◌, Bool, true, false, Option, none, some, [], ◌∷◌, ◌&&◌, ◌≡◌, refl,
  sym, ◌⊎◌, Bool-cases, inl, inr, arith,
}
use althea_rs.Prelude.Outcome.{ok, err, panic}
use althea_rs.PaymentController.{
  Network, ResendInfo, payment_failed, resend, validate_later, update_nonce, is_success,
  resend_txid,
}

-- The neighbour learns of the transaction.
unfoldable pub is_told : Network → Bool
is_told network = network.connected && success network.acknowledged
  where
    success : Option ℕ → Bool
    success none = false
    success (some status) = is_success status

-- The chain from a message on, where `network k` answers the attempt with number `k`: the number of
-- the attempt that ended it, or `none` where the fuel does not suffice or something else is sent.
unfoldable pub resend_chain : ℕ → (ℕ → Network) → ResendInfo → Option ℕ
resend_chain zero network input = none
resend_chain (suc fuel) network input = elim (resend_txid (network (input.attempt + 1)) input) [
  | panic ↦ none
  | err e ↦ none
  | ok [] ↦ some (input.attempt + 1)
  | ok (resend next ∷ []) ↦ resend_chain fuel network next
  | ok (resend next ∷ (message ∷ messages)) ↦ none
  | ok (payment_failed to ∷ messages) ↦ none
  | ok (validate_later ts ∷ messages) ↦ none
  | ok (update_nonce ∷ messages) ↦ none
]

-- The chain after an attempt ends with the attempt that is the first to tell the neighbour, or with
-- attempt sixteen, which does not try.
abbrev pub EndsAt : (ℕ → Network) → ℕ → Option ℕ → Type 0
EndsAt network attempt none = ⊥
EndsAt network attempt (some last) =
    attempt < last
    × last ≤ 16
    × (last ≤ 15 → is_told (network last) ≡ true)
    × ((j : ℕ) → attempt < j → j < last → is_told (network j) ≡ false)

abbrev next_attempt : ResendInfo → ResendInfo
next_attempt input = record input { attempt = input.attempt + 1 }

resend_txid-last :
    (network : Network) (input : ResendInfo)
    → input.attempt ≡ 15
    → resend_txid network input ≡ ok []
unfolding resend_txid
resend_txid-last network input h = ground arith

resend_txid-told :
    (network : Network) (input : ResendInfo)
    → input.attempt < 15
    → is_told network ≡ true
    → resend_txid network input ≡ ok []
unfolding resend_txid is_told
resend_txid-told network input h told = ground arith

resend_txid-again :
    (network : Network) (input : ResendInfo)
    → input.attempt < 15
    → is_told network ≡ false
    → resend_txid network input ≡ ok (resend (next_attempt input) ∷ [])
unfolding resend_txid is_told
resend_txid-again network input h told = ground arith

eq_or_more : (i j : ℕ) → i ≤ j → i ≡ j ⊎ i < j
eq_or_more i j h = ground arith

EndsAt-later :
    (network : ℕ → Network) (attempt : ℕ) (end : Option ℕ)
    → is_told (network (attempt + 1)) ≡ false
    → EndsAt network (attempt + 1) end
    → EndsAt network attempt end
EndsAt-later network attempt none told h = h
EndsAt-later network attempt (some last) told (h₁, h₂, h₃, h₄) = (
  omega arith,
  h₂,
  h₃,
  λ j hj hl. elim (eq_or_more (attempt + 1) j (omega arith)) [
    | inl e ↦ rw (sym e) told
    | inr more ↦ h₄ j more hl
  ],
)

resend_chain-stop :
    (fuel : ℕ) (network : ℕ → Network) (input : ResendInfo)
    → resend_txid (network (input.attempt + 1)) input ≡ ok []
    → resend_chain (suc fuel) network input ≡ some (input.attempt + 1)
unfolding resend_chain
resend_chain-stop fuel network input e = rw (e, resend_chain) refl

resend_chain-again :
    (fuel : ℕ) (network : ℕ → Network) (input next : ResendInfo)
    → resend_txid (network (input.attempt + 1)) input ≡ ok (resend next ∷ [])
    → resend_chain (suc fuel) network input ≡ resend_chain fuel network next
unfolding resend_chain
resend_chain-again fuel network input next e = rw (e, resend_chain) refl

resend_chain-EndsAt :
    (fuel : ℕ) (network : ℕ → Network) (input : ResendInfo)
    → input.attempt + suc fuel ≡ 16
    → EndsAt network input.attempt (resend_chain (suc fuel) network input)
resend_chain-EndsAt zero network input h =
    let last = resend_txid-last (network (input.attempt + 1)) input (omega arith) in
    rw (resend_chain-stop zero network input last)
      (omega arith, omega arith, (λ l. absurd (omega arith)), λ j h₁ h₂. absurd (omega arith))
resend_chain-EndsAt (suc fuel) network input h =
    let answer = network (input.attempt + 1) in
    elim (Bool-cases (is_told answer)) [
      | inl told ↦
          rw
            (resend_chain-stop (suc fuel) network input
              (resend_txid-told answer input (omega arith) told))
            (omega arith, omega arith, (λ l. told), λ j h₁ h₂. absurd (omega arith))
      | inr told ↦
          rw
            (resend_chain-again (suc fuel) network input (next_attempt input)
              (resend_txid-again answer input (omega arith) told))
            (EndsAt-later network input.attempt _ told
              (resend_chain-EndsAt fuel network (next_attempt input) (omega arith)))
    ]

-- From any attempt up to fifteen on the chain of retries ends: at the first attempt, of those that
-- remain up to the fifteenth, that tells the neighbour, or else at the sixteenth, which does nothing.
pub resend_chain-ends :
    (network : ℕ → Network) (input : ResendInfo)
    → input.attempt ≤ 15
    → EndsAt network input.attempt (resend_chain (16 - input.attempt) network input)
resend_chain-ends network input h =
    let e : suc (15 - input.attempt) ≡ 16 - input.attempt = omega arith in
    rw (sym e) (resend_chain-EndsAt (15 - input.attempt) network input (omega arith))
