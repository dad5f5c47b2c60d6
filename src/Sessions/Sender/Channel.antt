-- ===== src/Sessions/Sender/Channel.antt =====
-- recvChan of sessions/signalr_core_broadcast_sender.go and sessions/signalr_fx_broadcast_sender.go: the
-- goroutine that reads puts the latencies of the user's own messages in, and the loop of Execute takes
-- them out. The channel has room for broadcastDurationSecs of them, and a put into a full one waits.
use mathlib.Core.Path.{subst}
use mathlib.Core.List.{append_assoc, append-nil}
use sigbench.Prelude.{
  ℕ, ◌+◌, ◌≤◌, ◌<◌, ◌≡◌, ◌∙◌, refl, sym, ap, List, [], ◌∷◌, ◌++◌, Option, none, some, ltb, length,
  run_steps, run_steps_rule, if◌then◌else◌, Bool-cases, inl, inr, true, arith,
}

-- The reading goroutine: in ReadMessage, in its put, or at its end.
pub data Putter : Type 0 where
  idle : Putter
  putting : ℕ → Putter
  stopped : Putter

-- `arrived` and `taken` are what has come so far, in its order.
pub record RecvChan : Type 0 where
  pub size : ℕ
  pub buffer : List ℕ
  pub putter : Putter
  pub arrived : List ℕ
  pub taken : List ℕ

-- `make(chan int64, broadcastDurationSecs)`
unfoldable pub new_recv_chan : ℕ → RecvChan
new_recv_chan secs = record { size = secs; buffer = []; putter = idle; arrived = []; taken = [] }

-- An own message is read; the put goes through; Execute takes; the connection closes.
pub data Event : Type 0 where
  arrives : ℕ → Event
  puts takes closes : Event

-- What Execute takes, and what stays.
abbrev pub take_first : List ℕ → RecvChan → Option RecvChan
take_first [] c = none
take_first (ms ∷ rest) c = some (record c { buffer = rest; taken = c.taken ++ ms ∷ [] })

unfoldable pub put : Event → Putter → RecvChan → Option RecvChan
put (arrives ms) idle c = some (record c { putter = putting ms; arrived = c.arrived ++ ms ∷ [] })
put puts (putting ms) c =
    if ltb (length c.buffer) c.size
    then some (record c { putter = idle; buffer = c.buffer ++ ms ∷ [] })
    else none
put closes idle c = some (record c { putter = stopped })
put _ _ c = none

unfoldable pub step : RecvChan → Event → Option RecvChan
unfolding put
step c (arrives ms) = put (arrives ms) c.putter c
step c puts = put puts c.putter c
step c closes = put closes c.putter c
step c takes = take_first c.buffer c

abbrev in_hand : Putter → List ℕ
in_hand (putting ms) = ms ∷ []
in_hand _ = []

-- Nothing is lost, and the order is kept; the buffer has no more than its size.
record InOrder (size : ℕ) (p : Putter) (c : RecvChan) : Type 0 where
  kept : c.arrived ≡ c.taken ++ (c.buffer ++ in_hand p)
  fits : length c.buffer ≤ c.size
  same : c.size ≡ size

stuck : {A : Type 0} {P : Type 0} {d : A} → none ≡ some d → P
stuck h = cc

length-snoc : (xs : List ℕ) (x : ℕ) → length (xs ++ x ∷ []) ≡ length xs + 1
length-snoc [] x = refl
length-snoc (y ∷ xs) x = omega (arith, length-snoc xs x)

arrive-InOrder :
    (n ms : ℕ) (c : RecvChan)
    → InOrder n idle c
    → InOrder n (putting ms) (record c { putter = putting ms; arrived = c.arrived ++ ms ∷ [] })
arrive-InOrder n ms c o = record {
  kept =
      ap (λ l. l ++ ms ∷ []) o.kept
      ∙ append_assoc c.taken (c.buffer ++ []) (ms ∷ [])
      ∙ ap (λ l. c.taken ++ (l ++ ms ∷ [])) (append-nil c.buffer);
  fits = o.fits;
  same = o.same;
}

put-InOrder :
    (n ms : ℕ) (c : RecvChan)
    → length c.buffer < c.size
    → InOrder n (putting ms) c
    → InOrder n idle (record c { putter = idle; buffer = c.buffer ++ ms ∷ [] })
put-InOrder n ms c lt o = record {
  kept = o.kept ∙ ap (λ l. c.taken ++ l) (sym (append-nil (c.buffer ++ ms ∷ [])));
  fits = omega (arith, lt, length-snoc c.buffer ms);
  same = o.same;
}

take-InOrder :
    (n : ℕ) (b : List ℕ) (p : Putter) (c d : RecvChan)
    → c.buffer ≡ b
    → InOrder n p c
    → take_first b c ≡ some d
    → (d.putter ≡ c.putter) × InOrder n p d
take-InOrder n [] p c d q o h = stuck h
take-InOrder n (ms ∷ rest) p c d q o h =
    let e : record c { buffer = rest; taken = c.taken ++ ms ∷ [] } ≡ d = cc in
    (
      cc,
      subst (InOrder n p) e (record {
        kept =
            o.kept
            ∙ ap (λ l. c.taken ++ (l ++ in_hand p)) q
            ∙ sym (append_assoc c.taken (ms ∷ []) (rest ++ in_hand p));
        fits = omega (arith, o.fits, ap (λ (l : List ℕ). length l) q);
        same = o.same;
      }),
    )

put-stays :
    (n : ℕ) (e : Event) (p : Putter) (c d : RecvChan)
    → InOrder n p c
    → put e p c ≡ some d
    → InOrder n d.putter d
unfolding put
put-stays n (arrives ms) idle c d o h =
    subst (λ (x : RecvChan). InOrder n x.putter x)
      {x = record c { putter = putting ms; arrived = c.arrived ++ ms ∷ [] }} {y = d} (cc)
      (arrive-InOrder n ms c o)
put-stays n puts (putting ms) c d o h = elim (Bool-cases (ltb (length c.buffer) c.size)) [
  | inl room ↦
      subst (λ (x : RecvChan). InOrder n x.putter x)
        {x = record c { putter = idle; buffer = c.buffer ++ ms ∷ [] }} {y = d}
        (ground (arith, room, h)) (put-InOrder n ms c (ground (arith, room)) o)
  | inr full ↦ absurd (ground (arith, full, h))
]
put-stays n closes idle c d o h =
    subst (λ (x : RecvChan). InOrder n x.putter x) {x = record c { putter = stopped }} {y = d} (cc)
      (record { kept = o.kept; fits = o.fits; same = o.same })
put-stays n (arrives ms) (putting k) c d o h = stuck h
put-stays n (arrives ms) stopped c d o h = stuck h
put-stays n puts idle c d o h = stuck h
put-stays n puts stopped c d o h = stuck h
put-stays n closes (putting k) c d o h = stuck h
put-stays n closes stopped c d o h = stuck h
put-stays n takes p c d o h = stuck h

step-stays :
    (n : ℕ) (c d : RecvChan) (e : Event)
    → InOrder n c.putter c
    → step c e ≡ some d
    → InOrder n d.putter d
unfolding step
step-stays n c d (arrives ms) o h = put-stays n (arrives ms) c.putter c d o h
step-stays n c d puts o h = put-stays n puts c.putter c d o h
step-stays n c d closes o h = put-stays n closes c.putter c d o h
step-stays n c d takes o h =
    let t = take-InOrder n c.buffer c.putter c d refl o h in
    subst (λ p. InOrder n p d) (sym t.0) t.1

unfoldable pub use_chan : RecvChan → List Event → Option RecvChan
use_chan c es = run_steps step c es

length-append : (xs ys : List ℕ) → length (xs ++ ys) ≡ length xs + length ys
length-append [] ys = omega arith
length-append (x ∷ xs) ys = omega (arith, length-append xs ys)

has_room :
    (c : RecvChan) (ms : ℕ)
    → InOrder c.size (putting ms) c
    → length c.arrived ≤ c.size
    → length c.buffer < c.size
has_room c ms o few = omega (
  arith,
  few,
  ap (λ (l : List ℕ). length l) o.kept,
  length-append c.taken (c.buffer ++ ms ∷ []),
  length-snoc c.buffer ms,
)

goes_through :
    (c : RecvChan) (ms : ℕ)
    → InOrder c.size (putting ms) c
    → length c.arrived ≤ c.size
    → (d : RecvChan) × (put puts (putting ms) c ≡ some d) × (d.arrived ≡ d.taken ++ d.buffer)
unfolding put
goes_through c ms o few =
    let room : ltb (length c.buffer) c.size ≡ true = ground (arith, has_room c ms o few) in
    (record c { putter = idle; buffer = c.buffer ++ ms ∷ [] }, rw room refl, o.kept)

-- Over every run of the goroutine that reads and of Execute, as long as no more of the user's own messages
-- have arrived than the seconds of the broadcast: the goroutine's put of a latency goes through at once,
-- and then the latencies that Execute has taken, followed by those in the channel, are all that have
-- arrived, in their order.
pub use_chan-goes_through :
    (secs : ℕ) (es : List Event) (c : RecvChan) (ms : ℕ)
    → use_chan (new_recv_chan secs) es ≡ some c
    → c.putter ≡ putting ms
    → length c.arrived ≤ secs
    → (d : RecvChan) × (step c puts ≡ some d) × (d.arrived ≡ d.taken ++ d.buffer)
unfolding use_chan new_recv_chan step
use_chan-goes_through secs es c ms h q few =
    let o : InOrder secs c.putter c =
      run_steps_rule step (λ x. InOrder secs x.putter x) (step-stays secs) (new_recv_chan secs) c es
        (record { kept = refl; fits = omega arith; same = refl }) h in
    let (d, e, whole) =
      goes_through c ms
        (subst (λ p. InOrder c.size p c) q (record { kept = o.kept; fits = o.fits; same = refl }))
        (omega (arith, few, o.same)) in
    (d, ap (λ p. put puts p c) q ∙ e, whole)
