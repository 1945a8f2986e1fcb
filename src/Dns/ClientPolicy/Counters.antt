-- ===== src/Dns/ClientPolicy/Counters.antt =====
-- The sizes and the daily reset of the block statistics of src/modules/dns/client_policy.rs.
use shield_ghita.Prelude.{
  ℕ, ◌+◌, ◌/◌, ◌%◌, ◌≤◌, ◌≡◌, refl, sym, ap, ◌∙◌, if◌then◌else◌, inl, inr, false, List, [], ◌∷◌,
  ◌++◌, arith, Bytes, ◌==◌, nat_eq, bytes_eq, pair_eq, ltb, Bool-cases, length, nat_beq_iff,
  ==_refl, get, insert, length-append, length-take, length-drop, not_ltb→le,
}
use shield_ghita.Dns.ClientPolicy.{
  AdBlockControls, AdBlockControls_new, bump_entry, sort_by_count, count_of, saturating_add,
  bump_hour, count_hour, start_day, record_block,
}

-- The statistics keep within their caps.
pub record IsCapped {Address : Type 0} (c : AdBlockControls Address) : Type 0 where
  pub domains : length c.blocked_domains ≤ 512
  pub clients : length c.blocked_clients ≤ 128
  pub hours : length c.hourly ≤ 48

length-bump_entry-le :
    (m : List (Bytes × ℕ)) (key : Bytes) (cap : ℕ) → length (bump_entry m key cap) ≤ cap
unfolding bump_entry
length-bump_entry-le m key cap =
    let bumped = insert key (saturating_add (count_of (get m key)) 1) m in
    elim (Bool-cases (ltb cap (length bumped))) [
      | inl over ↦ rw over (omega (arith, length-take (cap / 2) (sort_by_count bumped)))
      | inr under ↦ rw under (not_ltb→le _ _ under)
    ]

length-bump_hour :
    (hourly : List (ℕ × ℕ)) (hour : ℕ) → length (bump_hour hourly hour) ≡ length hourly
length-bump_hour [] hour = refl
length-bump_hour ((bucket, count) ∷ hourly) hour = ground (arith, length-bump_hour hourly hour)

length-count_hour-le :
    (hourly : List (ℕ × ℕ)) (hour : ℕ) → length hourly ≤ 48 → length (count_hour hourly hour) ≤ 48
unfolding count_hour
length-count_hour-le hourly hour h = ground (
  arith,
  h,
  length-bump_hour hourly hour,
  length-append hourly ((hour, 1) ∷ []),
  length-drop 1 (hourly ++ ((hour, 1) ∷ [])),
)

-- A log of blocked queries: the domain, the client and the time of each, the newest first.
unfoldable pub after_blocks :
    {Address : Type 0}
    → AdBlockControls Address
    → List (Bytes × Bytes × ℕ)
    → AdBlockControls Address
after_blocks c [] = c
after_blocks c ((domain, client, now) ∷ log) = record_block (after_blocks c log) domain client now

start_day-IsCapped :
    {Address : Type 0} (c : AdBlockControls Address) (day : ℕ)
    → IsCapped c
    → IsCapped (start_day c day)
unfolding start_day
start_day-IsCapped c day v = elim (Bool-cases (c.stats_day == day)) [
  | inl same ↦ rw same v
  | inr new ↦ rw new (record { domains = v.domains; clients = omega arith; hours = omega arith })
]

pub record_block-IsCapped :
    {Address : Type 0} (c : AdBlockControls Address) (domain client : Bytes) (now : ℕ)
    → IsCapped c
    → IsCapped (record_block c domain client now)
unfolding record_block
record_block-IsCapped c domain client now v =
    let today = start_day c (now / 86400000) in
    let w = start_day-IsCapped c (now / 86400000) v in
    record {
      domains = length-bump_entry-le today.blocked_domains domain 512;
      clients = length-bump_entry-le today.blocked_clients client 128;
      hours = length-count_hour-le today.hourly (now / 3600000) w.hours;
    }

abbrev pub day_of : Bytes × Bytes × ℕ → ℕ
day_of block = block.2 / 86400000

-- The newest blocks that fall on a day, up to the first that does not.
abbrev pub blocks_on : ℕ → List (Bytes × Bytes × ℕ) → ℕ
blocks_on day [] = 0
blocks_on day (block ∷ log) = if day_of block == day then 1 + blocks_on day log else 0

-- The day of the newest block, and 0 before the first.
abbrev pub newest_day : List (Bytes × Bytes × ℕ) → ℕ
newest_day [] = 0
newest_day (block ∷ log) = day_of block

other_day :
    (log : List (Bytes × Bytes × ℕ)) (day : ℕ)
    → (newest_day log == day) ≡ false
    → blocks_on day log ≡ 0
other_day [] day other = refl
other_day (block ∷ log) day other = rw other refl

after_blocks-total :
    (Address : Type 0) (log : List (Bytes × Bytes × ℕ))
    → ((after_blocks {Address = Address} AdBlockControls_new log).stats_day ≡ newest_day log)
      × ((after_blocks {Address = Address} AdBlockControls_new log).total_blocked
          ≡ blocks_on (newest_day log) log % 0x10000000000000000)
unfolding after_blocks record_block start_day
after_blocks-total Address [] = (refl, refl)
after_blocks-total Address ((domain, client, now) ∷ log) =
    let (on, total) = after_blocks-total Address log in
    elim (Bool-cases (newest_day log == now / 86400000)) [
      | inl same ↦
          let day : newest_day log ≡ now / 86400000 = (nat_beq_iff _ _).0 same in
          rw (on, same, ==_refl (now / 86400000))
            (
              day,
              wraps (after_blocks {Address = Address} AdBlockControls_new log).total_blocked
                  (blocks_on (now / 86400000) log)
                  (total ∙ ap (λ d. blocks_on d log % 0x10000000000000000) day),
            )
      | inr other ↦
          rw (on, other, ==_refl (now / 86400000))
            (
              refl,
              sym (ap (λ n. (1 + n) % 0x10000000000000000) (other_day log (now / 86400000) other)),
            )
    ]
  where
    wraps :
        (t n : ℕ)
        → t ≡ n % 0x10000000000000000
        → (t + 1) % 0x10000000000000000 ≡ (1 + n) % 0x10000000000000000
    wraps t n h = omega (arith, h)

after_blocks-IsCapped :
    {Address : Type 0} (c : AdBlockControls Address) (log : List (Bytes × Bytes × ℕ))
    → IsCapped c
    → IsCapped (after_blocks c log)
unfolding after_blocks
after_blocks-IsCapped c [] v = v
after_blocks-IsCapped c ((domain, client, now) ∷ log) v =
    record_block-IsCapped (after_blocks c log) domain client now (after_blocks-IsCapped c log v)

new-IsCapped : {Address : Type 0} → IsCapped {Address = Address} AdBlockControls_new
new-IsCapped = record { domains = omega arith; clients = omega arith; hours = omega arith }

-- Whatever blocks are recorded from the start on, at most 512 domains, 128 clients and 48 hours are
-- counted, the day of the statistics is that of the newest block, and the total is, modulo 2^64, the
-- number of blocks since the day last changed.
pub record_block_counters :
    {Address : Type 0} (log : List (Bytes × Bytes × ℕ))
    → IsCapped {Address = Address} (after_blocks AdBlockControls_new log)
      × ((after_blocks {Address = Address} AdBlockControls_new log).stats_day ≡ newest_day log)
      × ((after_blocks {Address = Address} AdBlockControls_new log).total_blocked
          ≡ blocks_on (newest_day log) log % 0x10000000000000000)
record_block_counters {Address} log =
    let (day, total) = after_blocks-total Address log in
    (after_blocks-IsCapped AdBlockControls_new log new-IsCapped, day, total)
