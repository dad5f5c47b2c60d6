-- ===== src/Snapshot/Influx.antt =====
-- snapshot/influxdb_writer.go, and the aggregate of writers that HandleJobCreate of
-- service/controllers.go makes. The InfluxDB client is a parameter: what its WritePoint returns for a
-- point.
use Prim.Native.String.{◌++◌ as ◌^^◌}
use sigbench.Prelude.{
  ℕ, ◌≡◌, ◌∙◌, refl, ap, String, List, [], ◌∷◌, Option, none, some, lookup, str_eq, if◌then◌else◌,
  false, arith,
}
use sigbench.Counters.{Counters, IsMap, set_counters, lookup-set_counters, lookup-missing}
use sigbench.Snapshot.Memory.{MemorySnapshotWriter, new_memory_writer, write_memory}
use sigbench.Snapshot.Aggregated.{
  WriterApi, write_aggregated, write_aggregated-all, IsReport, cons_error, join_errors,
}
use sigbench.Service.Mux.{ServiceConfig}

-- The writer, with the server, token, organization and bucket that its client is made of.
pub record InfluxWriter : Type 0 where
  pub server_url : String
  pub auth_token : String
  pub org : String
  pub bucket : String
  pub tags : List (String × String)

unfoldable pub new_influx_writer :
    String → String → String → String → List (String × String) → InfluxWriter
new_influx_writer server_url auth_token org bucket tags = record {
  server_url = server_url;
  auth_token = auth_token;
  org = org;
  bucket = bucket;
  tags = tags;
}

-- What influxdb2.NewPoint is given.
pub record Point : Type 0 where
  pub measurement : String
  pub tags : List (String × String)
  pub fields : Counters
  pub time : ℕ

-- The loop copies the map.
unfoldable pub influx_point : InfluxWriter → ℕ → Counters → Point
influx_point w now counters = record {
  measurement = "job_stat";
  tags = w.tags;
  fields = set_counters [] counters;
  time = now;
}

-- The two writers of a job.
pub data JobWriter : Type 0 where
  in_memory : MemorySnapshotWriter → JobWriter
  to_influx : InfluxWriter → JobWriter

-- `snapshotWriters` of HandleJobCreate.
unfoldable pub job_writers : ServiceConfig → String → List JobWriter
job_writers config job_name =
    in_memory new_memory_writer
    ∷ (if str_eq config.influx_server_url ""
        then []
        else to_influx (
            new_influx_writer config.influx_server_url config.influx_auth_token config.influx_org
              config.influx_bucket (("job", job_name) ∷ []))
          ∷ [])

module _ (write_point : Point → Option String) where
  unfoldable pub write_influx : ℕ → Counters → InfluxWriter → InfluxWriter × Option String
  unfolding influx_point
  write_influx now counters w = (w, write_point (influx_point w now counters))

  unfoldable pub write_job : ℕ → Counters → JobWriter → JobWriter × Option String
  unfolding write_influx
  write_job now counters (in_memory m) =
      let (m', e) = write_memory now counters m in (in_memory m', e)
  write_job now counters (to_influx w) =
      let (w', e) = write_influx now counters w in (to_influx w', e)

  abbrev pub job_api : WriterApi
  job_api = record { Writer = JobWriter; write_counters = write_job }

-- What a failed write of the point makes of the aggregate's error.
abbrev pub reported : Option String → Option String
reported none = none
reported (some e) = some (◌^^◌ "AggregatedSnapshotWriter.WriteCounters:" e)

-- The point holds the counters: their fields, by name.
influx_point-fields :
    (w : InfluxWriter) (now : ℕ) (counters : Counters) (j : String)
    → IsMap counters
    → lookup j (influx_point w now counters).fields ≡ lookup j counters
unfolding influx_point lookup
influx_point-fields w now counters j h =
    ground (arith, lookup-set_counters j [] counters h, lookup-missing j counters)

reported-IsReport :
    (o r : Option String) → IsReport (job_api (λ p. o)) (cons_error o []) r → r ≡ reported o
unfolding join_errors
reported-IsReport none r h = h
reported-IsReport (some e) r h = h

abbrev made : ServiceConfig → String → InfluxWriter
made config job_name =
    new_influx_writer config.influx_server_url config.influx_auth_token config.influx_org
      config.influx_bucket (("job", job_name) ∷ [])

job_writers-two :
    (config : ServiceConfig) (job_name : String)
    → str_eq config.influx_server_url "" ≡ false
    → job_writers config job_name
      ≡ in_memory new_memory_writer ∷ to_influx (made config job_name) ∷ []
unfolding job_writers
job_writers-two config job_name url = rw url refl

write_two :
    (write_point : Point → Option String) (w : InfluxWriter) (now : ℕ) (counters : Counters)
    → write_aggregated
        (job_api write_point)
        now
        counters
        (in_memory new_memory_writer ∷ to_influx w ∷ [])
      ≡ (
        in_memory (record { counters = counters; updated_at = now }) ∷ to_influx w ∷ [],
        reported (write_point (influx_point w now counters)),
      )
unfolding write_job write_influx write_memory
write_two write_point w now counters =
    let ws = in_memory new_memory_writer ∷ to_influx w ∷ [] in
    let all = write_aggregated-all (job_api write_point) now counters ws in
    let o = write_point (influx_point w now counters) in
    λ i. (
      all.0 i,
      reported-IsReport o (write_aggregated (job_api write_point) now counters ws).1 all.1 i,
    )

-- For a configuration with an InfluxDB server: a snapshot written to the writers of a job is what its
-- memory writer holds afterwards, whatever InfluxDB answers; and the point that InfluxDB is given has the
-- snapshot's time, the job's name as its only tag, and at each name the snapshot's counter. The
-- aggregate's error is nil exactly if InfluxDB takes the point, and else holds its message.
pub job_writers-written :
    (write_point : Point → Option String) (config : ServiceConfig) (job_name : String) (now : ℕ)
    (counters : Counters) (j : String)
    → str_eq config.influx_server_url "" ≡ false
    → IsMap counters
    → (w : InfluxWriter) × (p : Point) × (write_aggregated
          (job_api write_point)
          now
          counters
          (job_writers config job_name)
        ≡ (
          in_memory (record { counters = counters; updated_at = now }) ∷ to_influx w ∷ [],
          reported (write_point p),
        ))
      × (p.time ≡ now)
      × (p.tags ≡ ("job", job_name) ∷ [])
      × (lookup j p.fields ≡ lookup j counters)
job_writers-written write_point config job_name now counters j url h =
    let w = made config job_name in
    let p = influx_point w now counters in
    (
      w,
      p,
      ap (write_aggregated (job_api write_point) now counters) (job_writers-two config job_name url)
          ∙ write_two write_point w now counters,
      unfold influx_point in refl,
      unfold influx_point new_influx_writer in refl,
      influx_point-fields w now counters j h,
    )
