-- ===== src/Sessions/RabbitMq/Packed.antt =====
-- How many connections the pool of sessions/rabbitmq_massive_queue.go holds.
use sigbench.Prelude.{
  ℕ, suc, ◌+◌, ◌*◌, ◌≤◌, ◌<◌, ◌≡◌, refl, ap, ◌∙◌, ltb, String, Bool, true, false, List, [], ◌∷◌,
  ◌++◌, Option, none, some, Result, ok, err, arith, length, sum_of, All, if◌then◌else◌, Bool-cases,
  ◌⊎◌, inl, inr,
}
use mathlib.Core.Path.{subst}
use sigbench.Sessions.RabbitMq.Pool.{
  AmqpApi, RabbitMqChannelPool, new_channel_pool, scan, dial_channel, locked_channel, get_channel,
}

-- A connection has a number of open channels, at most `limit` > 0 (the negotiated channel maximum): it
-- opens another exactly if there are fewer.
pub record IsBounded (api : AmqpApi) (limit : ℕ) (channels : api.Conn → ℕ) : Type 0 where
  pub pos : 0 < limit
  pub opens :
      (c : api.Conn)
      → channels c < limit
      → ((api.open_channel c).1 ≡ none) × (channels (api.open_channel c).0 ≡ suc (channels c))
  pub refuses :
      (c : api.Conn)
      → limit ≤ channels c
      → (e : String) × ((api.open_channel c).1 ≡ some e)
        × (channels (api.open_channel c).0 ≡ channels c)

room_lem : {limit : ℕ} (n : ℕ) → ltb n limit ≡ true → suc n ≤ limit
room_lem n h = ground arith

module _ (api : AmqpApi) (limit : ℕ) (channels : api.Conn → ℕ)
    (b : IsBounded api limit channels) where
  open api use {Conn, open_channel}

  -- All but the last connection are full, and every one has a channel.
  abbrev pub IsPacked : List Conn → Type 0
  IsPacked [] = Unit {0}
  IsPacked (c ∷ cs) =
      (0 < channels c) × (channels c ≤ limit) × ((channels c ≡ limit) ⊎ (cs ≡ [])) × IsPacked cs

  abbrev pub IsFull : List Conn → Type 0
  IsFull = All (λ c. channels c ≡ limit)

  -- What a scan of a packed pool comes to.
  record Scanned (cs ds : List Conn) (found : Bool) : Type 0 where
    same_length : length ds ≡ length cs
    packed : IsPacked ds
    counted : sum_of channels ds ≡ sum_of channels cs + (if found then 1 else 0)
    full : found ≡ false → IsFull ds

  scan-found :
      (c : Conn) (cs : List Conn)
      → (open_channel c).1 ≡ none
      → scan api (c ∷ cs) ≡ ((open_channel c).0 ∷ cs, true)
  unfolding scan
  scan-found c cs h = rw (h, scan)

  scan-next :
      (c : Conn) (cs : List Conn) (e : String)
      → (open_channel c).1 ≡ some e
      → scan api (c ∷ cs) ≡ ((open_channel c).0 ∷ (scan api cs).0, (scan api cs).1)
  unfolding scan
  scan-next c cs e h = rw (h, scan)

  scan-Scanned : (cs : List Conn) → IsPacked cs → Scanned cs (scan api cs).0 (scan api cs).1
  scan-Scanned [] p =
      unfold scan in record { same_length = refl; packed = tt; counted = refl; full = λ e. tt }
  scan-Scanned (c ∷ cs) (some_channel, bound, last, p) =
      elim (Bool-cases (ltb (channels c) limit)) [
        | inl room ↦
            let (done, more) = b.opens c (ground arith) in
            let alone : cs ≡ [] = elim last [ inl e ↦ absurd (ground arith) | inr e ↦ e ] in
            rw (scan-found c cs done, alone)
              (record {
                same_length = refl;
                packed = (
                  omega (arith, more),
                  omega (arith, more, room_lem (channels c) room),
                  inr refl,
                  tt,
                );
                counted = omega (arith, more);
                full = λ e. cc;
              })
        | inr none_left ↦
            let (e, failed, same) = b.refuses c (ground arith) in
            let exact : channels c ≡ limit = ground arith in
            let ih = scan-Scanned cs p in
            rw (scan-next c cs e failed) (record {
              same_length = ap suc ih.same_length;
              packed = (omega (arith, same), omega (arith, same), inl (same ∙ exact), ih.packed);
              counted = omega (arith, same, ih.counted);
              full = λ e. (same ∙ exact, ih.full e);
            })
      ]

  -- A pool whose connections are all full grows by one that is not empty.
  IsPacked-snoc : (cs : List Conn) (c : Conn) → IsFull cs → channels c ≡ 1 → IsPacked (cs ++ c ∷ [])
  IsPacked-snoc [] c f e = (omega (arith, e), omega (arith, e, b.pos), inr refl, tt)
  IsPacked-snoc (d ∷ cs) c (f, fs) e =
      (omega (arith, f, b.pos), omega (arith, f), inl f, IsPacked-snoc cs c fs e)

  IsPacked-bounds :
      (cs : List Conn)
      → IsPacked cs
      → (sum_of channels cs ≤ length cs * limit) × (length cs * limit < sum_of channels cs + limit)
  IsPacked-bounds [] p = (omega arith, omega (arith, b.pos))
  IsPacked-bounds (c ∷ cs) (some_channel, bound, inl full, p) =
      let (up, low) = IsPacked-bounds cs p in (grind arith, grind arith)
  IsPacked-bounds (c ∷ cs) (some_channel, bound, inr alone, p) = rw alone (omega arith, omega arith)

  -- A connection that was just dialled has no channels.
  abbrev pub IsFresh : Result String Conn → Type 0
  IsFresh (err e) = Unit {0}
  IsFresh (ok c) = channels c ≡ 0

  abbrev pub success : Option String → ℕ
  success none = 1
  success (some e) = 0

  abbrev Grown : ℕ → RabbitMqChannelPool Conn × Option String → Type 0
  Grown n (p, e) = IsPacked p.conns × (sum_of channels p.conns ≡ n + success e)

  IsFull-IsPacked : (cs : List Conn) → IsFull cs → IsPacked cs
  IsFull-IsPacked [] f = tt
  IsFull-IsPacked (c ∷ cs) (f, fs) =
      (omega (arith, f, b.pos), omega (arith, f), inl f, IsFull-IsPacked cs fs)

  sum_of-snoc :
      (cs : List Conn) (c : Conn) → sum_of channels (cs ++ c ∷ []) ≡ sum_of channels cs + channels c
  sum_of-snoc [] c = omega arith
  sum_of-snoc (d ∷ cs) c = omega (arith, sum_of-snoc cs c)

  dial_channel-Grown :
      (d : Result String Conn) (p : RabbitMqChannelPool Conn)
      → IsFresh d
      → IsFull p.conns
      → Grown (sum_of channels p.conns) (dial_channel api d p)
  unfolding dial_channel
  dial_channel-Grown (err e) p fresh f = (IsFull-IsPacked p.conns f, omega arith)
  dial_channel-Grown (ok c) p fresh f =
      let (opened, one) = b.opens c (omega (arith, fresh, b.pos)) in
      let first : channels (open_channel c).0 ≡ 1 = omega (arith, fresh, one) in
      rw (opened, dial_channel)
        (
          IsPacked-snoc p.conns (open_channel c).0 f first,
          omega (arith, sum_of-snoc p.conns (open_channel c).0, first),
        )

  -- A scan, and what follows if it finds none.
  scanned-Grown :
      (p : RabbitMqChannelPool Conn) (rest : RabbitMqChannelPool Conn × Option String)
      → IsPacked p.conns
      → (IsFull (scan api p.conns).0
          → sum_of channels (scan api p.conns).0 ≡ sum_of channels p.conns
          → Grown (sum_of channels p.conns) rest)
      → Grown
          (sum_of channels p.conns)
          (if (scan api p.conns).1 then (record p { conns = (scan api p.conns).0 }, none) else rest)
  scanned-Grown p rest packed k =
      let s = scan-Scanned p.conns packed in
      elim (Bool-cases (scan api p.conns).1) [
        | inl found ↦ rw found (s.packed, rw found at s.counted)
        | inr none_free ↦
            rw none_free
              (k (s.full none_free) (let e = rw none_free at s.counted in omega (arith, e)))
      ]

  locked_channel-Grown :
      (d : Result String Conn) (p : RabbitMqChannelPool Conn)
      → IsFresh d
      → IsPacked p.conns
      → Grown (sum_of channels p.conns) (locked_channel api d p)
  unfolding locked_channel
  locked_channel-Grown d p fresh packed =
      scanned-Grown p (dial_channel api d (record p { conns = (scan api p.conns).0 })) packed
        (λ full same.
          subst (λ n. Grown n (dial_channel api d (record p { conns = (scan api p.conns).0 }))) same
            (dial_channel-Grown d (record p { conns = (scan api p.conns).0 }) fresh full))

  get_channel-Grown :
      (d : Result String Conn) (p : RabbitMqChannelPool Conn)
      → IsFresh d
      → IsPacked p.conns
      → Grown (sum_of channels p.conns) (get_channel api d p)
  unfolding get_channel
  get_channel-Grown d p fresh packed =
      scanned-Grown p (locked_channel api d (record p { conns = (scan api p.conns).0 })) packed
        (λ full same.
          subst (λ n. Grown n (locked_channel api d (record p { conns = (scan api p.conns).0 })))
            same
            (locked_channel-Grown d (record p { conns = (scan api p.conns).0 }) fresh
              (IsFull-IsPacked (scan api p.conns).0 full)))

  -- Calls of Channel one after another, and how many of them open a channel.
  unfoldable pub get_channels :
      List (Result String Conn) → RabbitMqChannelPool Conn → RabbitMqChannelPool Conn × ℕ
  unfolding get_channel
  get_channels [] p = (p, 0)
  get_channels (d ∷ ds) p =
      let called = get_channel api d p in
      let later = get_channels ds called.0 in (later.0, success called.1 + later.1)

  get_channels-IsPacked :
      (ds : List (Result String Conn)) (p : RabbitMqChannelPool Conn)
      → All IsFresh ds
      → IsPacked p.conns
      → IsPacked (get_channels ds p).0.conns
        × (sum_of channels (get_channels ds p).0.conns
            ≡ sum_of channels p.conns + (get_channels ds p).1)
  unfolding get_channels
  get_channels-IsPacked [] p fresh packed = (packed, omega arith)
  get_channels-IsPacked (d ∷ ds) p (f, fs) packed =
      let (packed', sum) = get_channel-Grown d p f packed in
      let (packed'', sum') = get_channels-IsPacked ds (get_channel api d p).0 fs packed' in
      (packed'', omega (arith, sum, sum'))

  -- Where a connection opens channels up to a limit and no further, and a new connection has none: after
  -- any number of calls of Channel on a new pool, whose dialled connections may fail or not, the pool's
  -- connections have exactly as many channels as calls succeeded, and there is not one connection more
  -- than these channels need.
  pub get_channels-minimal :
      (url : String) (ds : List (Result String Conn))
      → All IsFresh ds
      → let (p, opened) = get_channels ds (new_channel_pool url) in
        (sum_of channels p.conns ≡ opened)
        × (opened ≤ length p.conns * limit)
        × (length p.conns * limit < opened + limit)
  unfolding new_channel_pool
  get_channels-minimal url ds fresh =
      let p : RabbitMqChannelPool Conn = new_channel_pool url in
      let (packed, sum) = get_channels-IsPacked ds p fresh tt in
      let (up, low) = IsPacked-bounds (get_channels ds p).0.conns packed in
      (omega (arith, sum), omega (arith, sum, up), omega (arith, sum, low))
