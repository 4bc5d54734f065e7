-- ===== src/LoadBalancer/Backend/Metrics.antt =====
-- internal/loadbalancer/backend.go: latency statistics and health scores, over any float64.
use rms_gate.Base.{
  ℕ, ◌+◌, ◌-◌, ◌/◌, ◌%◌, ◌^◌, not, ◌&&◌, List, foldl, ltb, ◌==◌, if◌then◌else◌, length, take, drop,
  ℤ, pos, negsuc, signed_64, ◌-ℤ◌, ltb_ℤ, lt_32, signed_32,
}
use rms_gate.Float64.{Floats}
use rms_gate.LoadBalancer.Backend.{Backend}

-- A sum of int64 values, and the integer that its pattern stands for.
unfoldable pub sum_64 : List ℕ → ℕ
sum_64 = foldl (λ acc v. (acc + v) % 2 ^ 64) 0

-- `if penalty > limit { penalty = limit }`
abbrev capped : ℤ → ℤ → ℤ
capped limit x = if ltb_ℤ limit x then limit else x

module _ (fl : Floats) where
  open fl use {Float, of_int, decimal, fadd, fsub, fmul, fdiv, sqrt, flt, feq, to_int}

  abbrev num : ℕ → Float
  num n = of_int (pos n)

  unfoldable pub mean : List ℕ → Float
  unfolding sum_64
  mean w = fdiv (of_int (signed_64 (sum_64 w))) (num (length w))

  unfoldable pub avg_latency : Backend → Float
  unfolding mean
  avg_latency b = if length b.latency_window == 0 then num 0 else mean b.latency_window

  unfoldable pub jitter : Backend → Float
  unfolding mean
  jitter b =
      let w = b.latency_window in
      let avg = mean w in
      let variance =
        foldl (λ acc v. let diff = fsub (num v) avg in fadd acc (fmul diff diff)) (num 0) w in
      if ltb (length w) 2 then num 0 else sqrt (fdiv variance (num (length w)))

  unfoldable pub trend : Backend → Float
  unfolding sum_64
  trend b =
      let w = b.latency_window in
      let n = length w in
      let start = n - n / 4 in
      let recent_start = if ltb start 1 then 1 else start in
      let older_sum = sum_64 (take recent_start w) in
      let recent_sum = sum_64 (drop recent_start w) in
      let recent_avg = fdiv (of_int (signed_64 recent_sum)) (num (n - recent_start)) in
      let older_avg = fdiv (of_int (signed_64 older_sum)) (num recent_start) in
      if ltb n 8
      then num 0
      else if feq older_avg (num 0)
      then num 0
      else fmul (fdiv (fsub recent_avg older_avg) older_avg) (num 100)

  unfoldable pub trust_ratio : Backend → Float
  trust_ratio b = fdiv (of_int (signed_32 b.trust_coeff)) (num 100)

  unfoldable pub conn_ratio : Backend → Float
  conn_ratio b = fdiv (of_int (signed_32 b.current_conns)) (of_int b.max_connections)

  -- `HealthScore`, for display; its argument is not read.
  unfoldable pub health_score : Backend → Float → ℤ
  unfolding avg_latency jitter trust_ratio conn_ratio
  health_score b jitter_threshold =
      let avg = avg_latency b in
      let s1 =
        if flt (num 0) avg
        then pos 100 -ℤ capped (pos 40) (to_int (fdiv avg (num 5)))
        else pos 100 in
      let j = jitter b in
      let s2 = if flt (num 0) j then s1 -ℤ capped (pos 30) (to_int (fdiv j (num 2))) else s1 in
      let s3 =
        if ltb_ℤ (pos 0) b.max_connections
        then s2 -ℤ to_int (fmul (conn_ratio b) (num 20))
        else s2 in
      let s4 = if lt_32 0 b.fail_count then s3 -ℤ pos 10 else s3 in
      let s5 = to_int (fmul (of_int s4) (trust_ratio b)) in
      if b.disabled
      then pos 0
      else if not b.healthy
      then pos 0
      else if ltb_ℤ s5 (pos 0)
      then pos 0
      else s5

  -- The five parts of `RelativeHealthScore`, in the order in which it adds them.
  latency_part : Float → Float → Float → Float
  latency_part score avg min_latency =
      if flt (num 0) avg && flt (num 0) min_latency
      then fadd score (fmul (num 40) (fdiv min_latency avg))
      else if feq avg (num 0)
      then fadd score (num 40)
      else score

  jitter_part : Float → Float → Float → Float
  jitter_part score j min_jitter =
      if flt (num 0) j && flt (num 0) min_jitter
      then fadd score (fmul (num 30) (fdiv min_jitter j))
      else if feq j (num 0)
      then fadd score (num 30)
      else score

  connection_part : Float → Backend → Float
  unfolding conn_ratio
  connection_part score b =
      if ltb_ℤ (pos 0) b.max_connections
      then fadd score (fmul (num 20) (fsub (num 1) (conn_ratio b)))
      else fadd score (num 20)

  stability_part : Float → Backend → Float
  stability_part score b = if b.fail_count == 0 then fadd score (num 10) else score

  trend_part : Float → Float → Float
  trend_part score t =
      if flt (num 20) t
      then fsub score (num 10)
      else if flt (num 10) t
      then fsub score (num 5)
      else if flt t (of_int (negsuc 19))
      then fadd score (num 10)
      else if flt t (of_int (negsuc 9))
      then fadd score (num 5)
      else score

  -- The score before it is brought into range.
  unfoldable pub raw_score : Backend → Float → Float → Float
  unfolding avg_latency jitter trend trust_ratio latency_part jitter_part connection_part
      stability_part trend_part
  raw_score b min_latency min_jitter =
      let s1 = latency_part (num 0) (avg_latency b) min_latency in
      let s2 = jitter_part s1 (jitter b) min_jitter in
      let s3 = connection_part s2 b in
      let s4 = stability_part s3 b in let s5 = trend_part s4 (trend b) in fmul s5 (trust_ratio b)

  unfoldable pub relative_health_score : Backend → Float → Float → ℤ
  relative_health_score b min_latency min_jitter =
      let score = raw_score b min_latency min_jitter in
      let s1 = if flt score (num 0) then num 0 else score in
      let s2 = if flt (num 100) s1 then num 100 else s1 in
      if b.disabled then pos 0 else if not b.healthy then pos 0 else to_int s2
