-- ===== src/Sessions/Broadcast/Weights.antt =====
-- Weights on the additions of Execute of sessions/signalr_core_broadcast_sender.go, and what each part
-- of a call weighs if it counts errors alone.
use sigbench.Prelude.{
  ℕ, ◌≡◌, String, List, drop, ◌-◌, Result, ok, err, returned, arith, is_neg, ltb, leb, ◌||◌,
  index_out_of_range, get_elem?, length, Bool-cases, inl, inr,
}
use sigbench.Text.{split}
use sigbench.Util.{get_vmss_instance_id, parse_int36}
use sigbench.Sessions.Api.{Params}
use sigbench.Sessions.Sender
use sigbench.Sessions.Sender.{make_recv_chan, broadcast_duration}
use sigbench.Sessions.Sender.Weights.{make_recv_chan-Steady}
use sigbench.Sessions.Script.{rename, add, panic, try, or_out_of_range}
use sigbench.Sessions.Script.Rules.{
  Tally, skip-Tally, Steady, bind-Steady, try-Steady, if-Steady, or_out_of_range-Steady,
}
use sigbench.Sessions.Broadcast.{
  Field, user_idx, in_progress, errors, close_error, success, messages_send, latency, instance_hit,
  on_sender, index64, rem64, select_host, count_instance, log_host_instance, host_list, Env,
  execute_body, max_instances,
}

-- How much an addition adds to one field.
abbrev pub to_in_progress : Field × ℕ → ℕ
to_in_progress (in_progress, d) = d
to_in_progress (_, d) = 0

abbrev pub to_errors : Field × ℕ → ℕ
to_errors (errors, d) = d
to_errors (_, d) = 0

-- To either of the two counters of a session that ran to its end.
abbrev pub to_ends : Field × ℕ → ℕ
to_ends (success, d) = d
to_ends (close_error, d) = d
to_ends (_, d) = 0

abbrev pub to_messages_send : Field × ℕ → ℕ
to_messages_send (messages_send, d) = d
to_messages_send (_, d) = 0

abbrev pub to_latencies : Field × ℕ → ℕ
to_latencies (latency b, d) = d
to_latencies (_, d) = 0

-- A weight that counts none of the additions of a call but its errors, `e` each, and those around the
-- connected part.
pub record Silent (w : Field × ℕ → ℕ) (e : ℕ) : Type 0 where
  pub error_weight : w (errors, 1) ≡ e
  pub user : w (user_idx, 1) ≡ 0
  pub instance_hits : (i : ℕ) → w (instance_hit i, 1) ≡ 0

module _ (w : Field × ℕ → ℕ) (e : ℕ) (s : Silent w e) where
  pub tries : {A : Type 0} (r : Result String A) → Steady w (Unit {0}) 0 e (try errors r)
  tries r = rw (← s.error_weight) (try-Steady w (Unit {0}) errors r)

  index64-Steady : {A : Type 0} (xs : List A) (i : ℕ) → Steady w (Unit {0}) 0 e (index64 xs i)
  unfolding index64
  index64-Steady xs i =
      if-Steady w (Unit {0}) 0 e (is_neg i) (panic index_out_of_range)
        (or_out_of_range (get_elem? xs i)) tt
        (or_out_of_range-Steady w (Unit {0}) e (get_elem? xs i) tt)

  select_host-Steady : (idx : ℕ) (hosts : String) → Steady w (Unit {0}) 0 e (select_host idx hosts)
  unfolding select_host
  select_host-Steady idx hosts =
      bind-Steady w (Unit {0}) 0 e (add user_idx 1)
        (λ _. index64 (split hosts) (rem64 idx (length (split hosts)))) (omega (arith, s.user))
        (λ _. index64-Steady (split hosts) (rem64 idx (length (split hosts))))

  count_instance-Steady :
      (r : Result String ℕ) → Steady w (Unit {0}) 0 e (count_instance (returned r))
  unfolding count_instance
  count_instance-Steady (err x) = tries {A = Unit {0}} (err x)
  count_instance-Steady (ok id) =
      if-Steady w (Unit {0}) 0 e (is_neg id || leb max_instances id) (panic index_out_of_range)
        (add (instance_hit id) 1) tt (omega (arith, s.instance_hits id))

  log_host_instance-Steady :
      (hostname : List ℕ) → Steady w (Unit {0}) 0 e (log_host_instance hostname)
  unfolding log_host_instance get_vmss_instance_id count_instance
  log_host_instance-Steady hostname = elim (Bool-cases (ltb (length hostname) 6)) [
    | inl short ↦ rw short tt
    | inr long ↦ rw long (count_instance-Steady (parse_int36 (drop (length hostname - 6) hostname)))
  ]

  -- The part before the session counts as connected, with any weights behind it.
  pub body-Steady :
      (env : Env) (atoi : String → Result String ℕ) (params : Params) (v : ℕ)
      → Steady w
          (Unit {0})
          v
          e
          (rename on_sender (Sender.when_connected env.sender (broadcast_duration atoi params)))
      → Steady w (Unit {0}) v e (execute_body env atoi params)
  unfolding execute_body
  body-Steady env atoi params v rest =
      bind-Steady w (Unit {0}) v e (select_host env.idx (host_list params)) _
        (select_host-Steady env.idx (host_list params))
        λ host.
          bind-Steady w (Unit {0}) v e (try errors env.new_request) _ (tries env.new_request) λ _.
            bind-Steady w (Unit {0}) v e (try errors env.handshake) _ (tries env.handshake)
              λ hostname.
                bind-Steady w (Unit {0}) v e (log_host_instance hostname) _
                  (log_host_instance-Steady hostname)
                  λ _.
                    bind-Steady w (Unit {0}) v e (try errors env.decode) _ (tries env.decode) λ id.
                      bind-Steady w (Unit {0}) v e (try errors env.dial) _ (tries env.dial) λ _.
                        bind-Steady w (Unit {0}) v e
                          (make_recv_chan (broadcast_duration atoi params)) _
                          (make_recv_chan-Steady w e (broadcast_duration atoi params))
                          λ _.
                            bind-Steady w (Unit {0}) v e (try errors env.set_protocol) _
                              (tries env.set_protocol) λ _. rest

module _ (w : Field × ℕ → ℕ) (s : Silent w 0) where
  -- The same, of what the additions weigh if the call returns nil.
  pub body-Tally :
      (env : Env) (atoi : String → Result String ℕ) (params : Params) (v : ℕ)
      → Tally w v
          (rename on_sender (Sender.when_connected env.sender (broadcast_duration atoi params)))
      → Tally w v (execute_body env atoi params)
  unfolding execute_body
  body-Tally env atoi params v rest =
      let secs = broadcast_duration atoi params in
      skip-Tally w (Unit {0}) v 0 (select_host env.idx (host_list params)) _
        (select_host-Steady w 0 s env.idx (host_list params))
        λ host.
          skip-Tally w (Unit {0}) v 0 (try errors env.new_request) _ (tries w 0 s env.new_request)
            λ _.
              skip-Tally w (Unit {0}) v 0 (try errors env.handshake) _ (tries w 0 s env.handshake)
                λ hostname.
                  skip-Tally w (Unit {0}) v 0 (log_host_instance hostname) _
                    (log_host_instance-Steady w 0 s hostname)
                    λ _.
                      skip-Tally w (Unit {0}) v 0 (try errors env.decode) _ (tries w 0 s env.decode)
                        λ id.
                          skip-Tally w (Unit {0}) v 0 (try errors env.dial) _ (tries w 0 s env.dial)
                            λ _.
                              skip-Tally w (Unit {0}) v 0 (make_recv_chan secs) _
                                (make_recv_chan-Steady w 0 secs)
                                λ _.
                                  skip-Tally w (Unit {0}) v 0 (try errors env.set_protocol) _
                                    (tries w 0 s env.set_protocol) λ _. rest
