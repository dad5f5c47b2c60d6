-- ===== src/Sessions/WebPubSub/Sends.antt =====
-- What a step of Execute of sessions/webpubsub_echo.go is to its reading goroutine.
use mathlib.Core.Path.{subst}
use sigbench.Prelude.{◌≡◌, sym, refl, String, Option, none, some, Result}
use sigbench.Sessions.Script.{value, error, crash, blocked, Script}
use sigbench.Sessions.Echo.{Field}
use sigbench.Sessions.WebPubSub.{WebPubSubEvent}
use sigbench.Sessions.WebPubSub.Reader.{
  Inbound, Stage, at_connected, at_joined, at_echo, returned, Conversation, finish, go_on, go_round,
  released, read, take, time_out, reading, sending, closing, stopped, Reader,
}
use sigbench.Sessions.WebPubSub.Steps.{stuck, take_connected, take_joined, take_echo}

-- The reader waits in one of its sends.
abbrev pub IsInSend : Reader → Type 0
IsInSend (sending s) = Unit {0}
IsInSend closing = Unit {0}
IsInSend _ = ⊥

-- What Execute does is no matter of the reader's.
abbrev pub SameReader : Conversation → Conversation → Type 0
SameReader c d = (d.reader ≡ c.reader) × (d.by_reader ≡ c.by_reader)

go_on-SameReader :
    (next : Stage) (m : Script Field (Unit {0})) (c : Conversation) → SameReader c (go_on next m c)
unfolding go_on finish
go_on-SameReader next (adds, value a) c = (refl, refl)
go_on-SameReader next (adds, error e) c = (refl, refl)
go_on-SameReader next (adds, crash p) c = (refl, refl)
go_on-SameReader next (adds, blocked) c = (refl, refl)

go_round-SameReader :
    (r : Option (Script Field (Unit {0}))) (c : Conversation) → SameReader c (go_round r c)
unfolding go_round finish
go_round-SameReader none c = (refl, refl)
go_round-SameReader (some m) c = (refl, refl)

pub no_read : (i : Inbound) (x : Reader) (c d : Conversation) → IsInSend x → read i x c ≡ some d → ⊥
unfolding read
no_read i reading c d b h = b
no_read i (sending s) c d b h = stuck h
no_read i closing c d b h = stuck h
no_read i stopped c d b h = b

module _ (format : WebPubSubEvent → String) where
  -- A select that takes what the reader sends lets it go on.
  pub take-reader :
      (w : Result String (Unit {0})) (p : Stage) (c d : Conversation)
      → take format w p c ≡ some d
      → SameReader (record c { reader = released c.reader }) d
  unfolding take
  take-reader w at_connected c d h =
      let (o, q) = take_connected format w c d h in
      subst (SameReader (record c { reader = released c.reader })) (sym q) (go_on-SameReader _ _ _)
  take-reader w at_joined c d h =
      let (o, q) = take_joined format w c d h in
      subst (SameReader (record c { reader = released c.reader })) (sym q) (go_on-SameReader _ _ _)
  take-reader w at_echo c d h =
      let (o, q) = take_echo format w c d h in
      subst (SameReader (record c { reader = released c.reader })) (sym q) (go_round-SameReader _ _)
  take-reader w (returned r) c d h = stuck h

  pub time_out-reader :
      (p : Stage) (c d : Conversation) → time_out format p c ≡ some d → SameReader d c
  unfolding time_out finish
  time_out-reader at_connected c d h = (cc, cc)
  time_out-reader at_joined c d h = (cc, cc)
  time_out-reader at_echo c d h = (cc, cc)
  time_out-reader (returned r) c d h = stuck h
