-- ===== src/Packets/Stats.antt =====
-- z3_rtsp_client/z3_rtp_reception_stats.cpp: what is remembered of each source's sender reports.
use z3_engine.Base.{
  ℕ, ◌+◌, ◌-◌, ◌*◌, ◌/◌, ◌%◌, ◌≤◌, ◌<◌, ◌≡◌, refl, ◌∙◌, inl, inr, Bool, false, List, [], ◌∷◌,
  Option, none, some, arith, ◌==◌, if◌then◌else◌, Option-cases, Outcome, ok, ◌>>=◌,
}
use z3_engine.Packets.Rtcp.{Report, sr_get_ssrc, sr_get_ntp_timestamp, sr_get_rtp_timestamp}

pub record Timeval : Type 0 where
  pub sec : ℕ
  pub usec : ℕ

pub record Stats : Type 0 where
  pub last_ntp : ℕ
  pub last_time : Timeval
  pub last_rtp : ℕ
  pub sync_time : Timeval
  pub synchronized : Bool

abbrev pub zero_time : Timeval
zero_time = record { sec = 0; usec = 0 }

pub new_stats : Stats
new_stats = record {
  last_ntp = 0;
  last_time = zero_time;
  last_rtp = 0;
  sync_time = zero_time;
  synchronized = false;
}

-- The 64-bit NTP time as seconds since 1970, in 32 bits, and microseconds. The `double` products
-- and quotients of the source are exact here: all values have fewer than 53 significant bits.
pub sync_of : ℕ → Timeval
sync_of ntp = record {
  sec = (ntp / 4294967296 + 4294967296 - 0x83AA7E80) % 4294967296;
  usec = (ntp % 4294967296 * 15625 + 33554432) / 67108864;
}

-- `now` is what gettimeofday gives.
pub process_incoming_sr : Timeval → Report → Stats → Outcome Stats
process_incoming_sr now sr s = do
  ntp ← sr_get_ntp_timestamp sr
  rtp ← sr_get_rtp_timestamp sr
  ok (record s { last_ntp = ntp; last_rtp = rtp; last_time = now; sync_time = sync_of ntp })

-- RTPReceptionStatsDB: a map from the source to its statistics.
abbrev pub Db : Type 0
Db = List (ℕ × Stats)

pub lookup : ℕ → Db → Option Stats
lookup ssrc [] = none
lookup ssrc ((k, s) ∷ db) = if k == ssrc then some s else lookup ssrc db

-- `insert` of a map changes nothing where the key is there.
pub add : ℕ → Stats → Db → Db
add ssrc s [] = (ssrc, s) ∷ []
add ssrc s ((k, t) ∷ db) = if k == ssrc then (k, t) ∷ db else (k, t) ∷ add ssrc s db

-- A write through the pointer that Lookup gives.
pub store : ℕ → Stats → Db → Db
store ssrc s [] = []
store ssrc s ((k, t) ∷ db) = if k == ssrc then (k, s) ∷ db else (k, t) ∷ store ssrc s db

find_or_add : ℕ → Option Stats → Db → Stats × Db
find_or_add ssrc (some s) db = (s, db)
find_or_add ssrc none db = (new_stats, add ssrc new_stats db)

pub db_process_incoming_sr : Timeval → Report → Db → Outcome Db
unfolding find_or_add
db_process_incoming_sr now sr db = do
  ssrc ← sr_get_ssrc sr
  let found = find_or_add ssrc (lookup ssrc db) db
  s ← process_incoming_sr now sr found.0
  ok (store ssrc s found.1)

-- The microseconds of the time of an NTP stamp are its fraction of a second to the nearest
-- microsecond, and at most 1000000, which is one too many.
pub sync_of_usec :
    (ntp : ℕ)
    → let u = (sync_of ntp).usec in
      (u ≤ 1000000)
      × (u * 4294967296 ≤ ntp % 4294967296 * 1000000 + 2147483648)
      × (ntp % 4294967296 * 1000000 < u * 4294967296 + 2147483648)
unfolding sync_of
sync_of_usec ntp = omega arith

-- From 4294965149 of the 2^32 parts of a second on they do.
pub sync_of_overflow : (ntp : ℕ) → 4294965149 ≤ ntp % 4294967296 → (sync_of ntp).usec ≡ 1000000
unfolding sync_of
sync_of_overflow ntp h = omega arith

lookup-add :
    (ssrc j : ℕ) (s : Stats) (db : Db)
    → lookup ssrc db ≡ none
    → lookup j (add ssrc s db) ≡ (if ssrc == j then some s else lookup j db)
unfolding lookup add
lookup-add ssrc j s [] e = refl
lookup-add ssrc j s ((k, t) ∷ db) e = ground (arith, lookup-add ssrc j s db)

lookup-store :
    (ssrc j : ℕ) (s t : Stats) (db : Db)
    → lookup ssrc db ≡ some t
    → lookup j (store ssrc s db) ≡ (if ssrc == j then some s else lookup j db)
unfolding lookup store
lookup-store ssrc j s t [] e = cc
lookup-store ssrc j s t ((k, r) ∷ db) e = ground (arith, lookup-store ssrc j s t db)

-- What the database knows of a source before the report: its statistics, or new ones.
abbrev pub or_new : Option Stats → Stats
or_new none = new_stats
or_new (some s) = s

abbrev pub known : ℕ → Db → Stats
known ssrc db = or_new (lookup ssrc db)

-- When the getters of a sender report answer, `ProcessIncomingSR` of the database succeeds, and a
-- lookup of any source then gives, for the source of the report, its statistics from before, or
-- new ones, with the two time stamps, the time of arrival and the time of the NTP stamp replaced,
-- and for every other source what it gave before.
pub lookup-db_process_incoming_sr :
    (now : Timeval) (sr : Report) (db : Db) (ssrc ntp rtp j : ℕ)
    → sr_get_ssrc sr ≡ ok ssrc
    → sr_get_ntp_timestamp sr ≡ ok ntp
    → sr_get_rtp_timestamp sr ≡ ok rtp
    → (db' : Db) × (db_process_incoming_sr now sr db ≡ ok db')
      × (lookup j db' ≡ (
          if ssrc == j
          then some (record (known ssrc db) {
            last_ntp = ntp;
            last_rtp = rtp;
            last_time = now;
            sync_time = sync_of ntp;
          })
          else lookup j db))
unfolding db_process_incoming_sr process_incoming_sr
lookup-db_process_incoming_sr now sr db ssrc ntp rtp j e f g =
    let upd = λ (s : Stats). record s {
      last_ntp = ntp;
      last_rtp = rtp;
      last_time = now;
      sync_time = sync_of ntp;
    } in
    elim (Option-cases (lookup ssrc db)) [
      | inl q ↦ (
        store ssrc (upd new_stats) (add ssrc new_stats db),
        rw (e, q, find_or_add) (rw (f, g)),
        rw (q, known)
            (lookup-store ssrc j (upd new_stats) new_stats (add ssrc new_stats db)
                (lookup-add ssrc ssrc new_stats db q ∙ ground arith)
              ∙ ground (arith, lookup-add ssrc j new_stats db q)),
      )
      | inr (t, q) ↦ (
        store ssrc (upd t) db,
        rw (e, q, find_or_add) (rw (f, g)),
        rw (q, known) (lookup-store ssrc j (upd t) t db q),
      )
    ]
