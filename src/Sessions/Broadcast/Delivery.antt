-- ===== src/Sessions/Broadcast/Delivery.antt =====
-- Which messages the goroutine of sessions/signalr_core_broadcast_sender.go takes a latency from, and
-- which ones it panics at.
use sigbench.Prelude.{
  ℕ, ◌≡◌, ◌≢◌, refl, ap, String, Bool, ◌&&◌, List, [], ◌∷◌, Result, ok, err, Outcome, returned,
  panicked, running, Panic, slice_out_of_range, index_out_of_range, arith, str_eq, str_eq_iff, ◌==◌,
  sub64, div64, ◌⊎◌, inl, inr, Bool-cases,
}
use sigbench.Sessions.Script.{value, crash, ◌>>=◌, pure}
use sigbench.Sessions.Broadcast.{Field, messages_recv}
use sigbench.Sessions.Broadcast.Reader.{
  Invocation, Inbound, read_failed, frame, delivers, or_panic, deliver_latency, read_arguments,
  read_content, read_message,
}

-- An answer to the user's own broadcast: its sender is the user, and its second argument is a time.
abbrev pub IsOwn : (String → Result String ℕ) → String → Invocation → ℕ → Type 0
IsOwn parse_int user_id content send_start =
    (stamp : String) × (rest : List String) × (content.type ≡ 1)
    × (content.target ≡ "broadcastMessage")
    × (content.arguments ≡ user_id ∷ stamp ∷ rest)
    × (parse_int stamp ≡ ok send_start)

delivers-injective : {a b : ℕ} → value (delivers a) ≡ value (delivers b) → a ≡ b
delivers-injective h = cc

or_panic-value :
    (o : Outcome ℕ) (ms : ℕ)
    → (or_panic o >>= λ x. pure (delivers x)).1 ≡ value (delivers ms)
    → (o ≡ returned ms) × ((or_panic o >>= λ x. pure (delivers x)).0 ≡ [])
or_panic-value (returned a) ms h = (ap returned (delivers-injective h), refl)
or_panic-value (panicked p) ms h = absurd (ground arith)
or_panic-value running ms h = absurd (ground arith)

deliver_latency-value :
    (now ms : ℕ) (r : Result String ℕ)
    → (deliver_latency now r).1 ≡ value (delivers ms)
    → (t : ℕ) × (r ≡ ok t)
      × (div64 (sub64 now t) 1000000 ≡ returned ms)
      × ((deliver_latency now r).0 ≡ [])
unfolding deliver_latency
deliver_latency-value now ms (err e) h = absurd (ground arith)
deliver_latency-value now ms (ok t) h =
    let (div, none_added) = or_panic-value (div64 (sub64 now t) 1000000) ms h in
    (t, refl, div, none_added)

module _ (parse_int : String → Result String ℕ) (user_id : String) (now ms : ℕ) where
  -- Arguments that the code takes a latency from.
  abbrev IsStamped : List String → List (Field × ℕ) → Type 0
  IsStamped args adds =
      (stamp : String) × (rest : List String) × (t : ℕ) × (args ≡ user_id ∷ stamp ∷ rest)
      × (parse_int stamp ≡ ok t)
      × (div64 (sub64 now t) 1000000 ≡ returned ms)
      × (adds ≡ [])

  read_arguments-IsStamped :
      (args : List String)
      → (read_arguments parse_int user_id now args).1 ≡ value (delivers ms)
      → IsStamped args (read_arguments parse_int user_id now args).0
  unfolding read_arguments
  read_arguments-IsStamped [] h = absurd (ground arith)
  read_arguments-IsStamped (sender ∷ []) h = absurd (ground arith)
  read_arguments-IsStamped (sender ∷ stamp ∷ rest) h = elim (Bool-cases (str_eq sender user_id)) [
    | inl own ↦
        let delivered : (deliver_latency now (parse_int stamp)).1 ≡ value (delivers ms) =
          rw own at h in
        let (t, parsed, div, none_added) =
          deliver_latency-value now ms (parse_int stamp) delivered in
        let sent : sender ≡ user_id = ground (arith, str_eq_iff sender user_id) in
        (stamp, rest, t, ap (λ x. x ∷ stamp ∷ rest) sent, parsed, div, rw own none_added)
    | inr other ↦ absurd (ground arith)
  ]

  abbrev is_broadcast : Invocation → Bool
  is_broadcast content = content.type == 1 && str_eq content.target "broadcastMessage"

  -- The latency and the additions of a round for an answer to the user's own broadcast.
  abbrev pub Delivered : Invocation → List (Field × ℕ) → Type 0
  Delivered content adds =
      (t : ℕ) × IsOwn parse_int user_id content t
      × (div64 (sub64 now t) 1000000 ≡ returned ms)
      × (adds ≡ (messages_recv, 1) ∷ [])

  read_content-Delivered :
      (content : Invocation)
      → (read_content parse_int user_id now (ok content)).1 ≡ value (delivers ms)
      → Delivered content (read_content parse_int user_id now (ok content)).0
  unfolding read_content
  read_content-Delivered content h = elim (Bool-cases (is_broadcast content)) [
    | inl hit ↦
        let delivered : (read_arguments parse_int user_id now content.arguments).1
            ≡ value (delivers ms) =
          rw hit at h in
        let (stamp, rest, t, args, parsed, div, none_added) =
          read_arguments-IsStamped content.arguments delivered in
        (
          t,
          (
            stamp,
            rest,
            ground arith,
            ground (arith, str_eq_iff content.target "broadcastMessage"),
            args,
            parsed,
          ),
          div,
          rw hit (ap (◌∷◌ (messages_recv, 1)) none_added),
        )
    | inr miss ↦ absurd (ground arith)
  ]

  decoded_lem :
      (r : Result String Invocation)
      → (read_content parse_int user_id now r).1 ≡ value (delivers ms)
      → (content : Invocation) × (r ≡ ok content)
        × Delivered content (read_content parse_int user_id now r).0
  unfolding read_content
  decoded_lem (err e) k = absurd (ground arith)
  decoded_lem (ok content) k = (content, refl, read_content-Delivered content k)

  -- The goroutine sends a latency only for a message that is not empty, that decodes to an invocation
  -- of type 1 and target "broadcastMessage", whose first argument is the user's id and whose second
  -- one parses as a time; the latency is the time since then in whole milliseconds; and the round has
  -- counted one message received and nothing else.
  pub read_message-delivers :
      (m : Inbound)
      → (read_message parse_int user_id now m).1 ≡ value (delivers ms)
      → (len : ℕ) × (content : Invocation) × (m ≡ frame len (ok content))
        × (len ≢ 0)
        × Delivered content (read_message parse_int user_id now m).0
  unfolding read_message
  read_message-delivers (read_failed unexpected) h = absurd (ground arith)
  read_message-delivers (frame len decoded) h = elim (Bool-cases (len == 0)) [
    | inl empty ↦ absurd (ground arith)
    | inr some_bytes ↦
        let read : (read_content parse_int user_id now decoded).1 ≡ value (delivers ms) =
          rw some_bytes at h in
        let (content, e, d) = decoded_lem decoded read in
        (len, content, ap (frame len) e, ground arith, rw some_bytes d)
  ]

module _ (parse_int : String → Result String ℕ) (user_id : String) (now : ℕ) where
  -- An invocation of a broadcast without a first argument, or with the user's id alone.
  abbrev pub IsShort : Invocation → Type 0
  IsShort content =
      (content.type ≡ 1)
      × (content.target ≡ "broadcastMessage")
      × ((content.arguments ≡ []) ⊎ (content.arguments ≡ user_id ∷ []))

  short_lem :
      (content : Invocation)
      → IsShort content
      → (read_content parse_int user_id now (ok content)).1 ≡ crash index_out_of_range
  unfolding read_content read_arguments
  short_lem content (t, g, inl a) =
      ground (arith, t, a, str_eq_iff content.target "broadcastMessage")
  short_lem content (t, g, inr a) =
      ground (arith, t, a, str_eq_iff content.target "broadcastMessage", str_eq_iff user_id user_id)

  -- The goroutine panics, and so ends the agent's process, for an empty message, and for an invocation of
  -- type 1 and target "broadcastMessage" that has no argument, or the user's id as its only one.
  pub read_message-panics :
      (len : ℕ) (decoded : Result String Invocation) (content : Invocation)
      → (len ≡ 0) ⊎ ((decoded ≡ ok content) × IsShort content)
      → (p : Panic) × ((read_message parse_int user_id now (frame len decoded)).1 ≡ crash p)
  unfolding read_message
  read_message-panics len decoded content (inl empty) = (slice_out_of_range, rw empty refl)
  read_message-panics len decoded content (inr (e, short)) = elim (Bool-cases (len == 0)) [
    | inl empty ↦ (slice_out_of_range, rw empty refl)
    | inr some_bytes ↦ (index_out_of_range, rw (some_bytes, e) (short_lem content short))
  ]
