-- ===== src/Sessions/SignalrEcho/Reader.antt =====
-- The goroutine of SignalRCoreEcho.Execute in sessions/signalr_core_echo.go that reads from the
-- websocket. What c.ReadMessage returns is as in Sessions/Broadcast/Reader.
use sigbench.Prelude.{
  ℕ, zero, suc, ◌+◌, ◌≡◌, refl, String, Bool, true, false, ◌&&◌, List, [], ◌∷◌, ok, err, Outcome,
  returned, panicked, slice_out_of_range, index_out_of_range, closed_channel, str_eq, ◌==◌,
  if◌then◌else◌, arith, ◌∙◌, ap,
}
use sigbench.Sessions.Script.{Ending, value, crash, Script, ◌>>=◌, ◌>>◌, pure, add, panic, or_crash}
use sigbench.Sessions.Echo.{Field, errors}
use sigbench.Sessions.Broadcast.Reader.{Invocation, Inbound, read_failed, frame}

-- `content.Arguments[1] == "foobar"`
unfoldable pub second_is_foobar : List String → Outcome Bool
second_is_foobar [] = panicked index_out_of_range
second_is_foobar (a ∷ []) = panicked index_out_of_range
second_is_foobar (a ∷ b ∷ rest) = returned (str_eq b "foobar")

unfoldable pub is_echo : Invocation → Outcome Bool
unfolding second_is_foobar
is_echo content =
    if content.type == 1 && str_eq content.target "echo"
    then second_is_foobar content.arguments
    else returned false

-- What follows a round: the goroutine returns, or reads on, with echoReceivedChan closed or not.
pub data Next : Type 0 where
  stops : Next
  reads_on : Bool → Next

-- `close(echoReceivedChan)` panics on a closed channel.
unfoldable pub close_received : Bool → Script Field Next
close_received closed = if closed then panic closed_channel else pure (reads_on true)

unfoldable pub read_message : Bool → Inbound → Script Field Next
unfolding is_echo close_received
read_message closed (read_failed unexpected) =
    if unexpected then (add errors 1 >> pure stops) else pure stops
read_message closed (frame zero decoded) = panic slice_out_of_range
read_message closed (frame (suc len) (err e)) = add errors 1 >> pure stops
read_message closed (frame (suc len) (ok content)) = or_crash (is_echo content) >>= λ echo.
    if echo then close_received closed else pure (reads_on closed)

-- The loop over the messages that arrive, and whether it has closed echoReceivedChan by then.
unfoldable pub read_all : Bool → List Inbound → Script Field Bool
unfolding read_message
read_all closed [] = pure closed
read_all closed (m ∷ ms) =
    read_message closed m >>= λ next. elim next [ stops ↦ pure closed | reads_on b ↦ read_all b ms ]

-- A message that decodes, with two arguments at least if it is an invocation of "echo"; `echo` says
-- whether it is the echo that the session waits for.
pub data IsSound : Inbound → Bool → Type 0 where
  sound :
      (len : ℕ) (content : Invocation) (echo : Bool)
      → is_echo content ≡ returned echo
      → IsSound (frame (suc len) (ok content)) echo

pub data AreSound : List Inbound → ℕ → Type 0 where
  none_left : AreSound [] 0
  one_more :
      {m : Inbound} {ms : List Inbound} {n : ℕ} (echo : Bool)
      → IsSound m echo
      → AreSound ms n
      → AreSound (m ∷ ms) ((if echo then 1 else 0) + n)

-- How the loop ends after so many echoes.
abbrev pub ending_of : ℕ → Ending Bool
ending_of zero = value false
ending_of (suc zero) = value true
ending_of (suc (suc n)) = crash closed_channel

abbrev once : Bool → ℕ
once closed = if closed then 1 else 0

read_message_sound :
    (closed echo : Bool) (len : ℕ) (content : Invocation)
    → is_echo content ≡ returned echo
    → read_message closed (frame (suc len) (ok content))
      ≡ (if echo then close_received closed else pure (reads_on closed))
unfolding read_message
read_message_sound closed true len content e = rw e refl
read_message_sound closed false len content e = rw e refl

read_all-ending :
    (closed : Bool) {ms : List Inbound} {n : ℕ}
    → AreSound ms n
    → (read_all closed ms).1 ≡ ending_of (once closed + n)
unfolding read_all close_received
read_all-ending true none_left = refl
read_all-ending false none_left = refl
read_all-ending closed (one_more {ms} {n} false (sound len content false e) rest) =
    let same : n ≡ 0 + n = omega arith in
    rw (read_message_sound closed false len content e)
      (read_all-ending closed rest ∙ ap (λ x. ending_of (once closed + x)) same)
read_all-ending false (one_more {ms} {n} true (sound len content true e) rest) =
    let same : 1 + n ≡ 0 + (1 + n) = omega arith in
    rw (read_message_sound false true len content e) (read_all-ending true rest ∙ ap ending_of same)
read_all-ending true (one_more {ms} {n} true (sound len content true e) rest) =
    let same : suc (suc n) ≡ 1 + (1 + n) = omega arith in
    rw (read_message_sound true true len content e) (ap ending_of same)

-- Whenever all messages that arrive are not empty, decode, and have two arguments if they are
-- invocations of "echo": without an echo the goroutine reads on and the channel that the session waits
-- for stays open, with one echo it reads on and has closed the channel, and with two or more it panics,
-- and so ends the agent's process.
pub read_all-echoes :
    {ms : List Inbound} {n : ℕ} → AreSound ms n → (read_all false ms).1 ≡ ending_of n
read_all-echoes {ms} {n} s =
    let same : 0 + n ≡ n = omega arith in read_all-ending false s ∙ ap ending_of same
