-- ===== src/Tests/Limits.antt =====
-- Dates, block numbers and the limits on what a player may do, at concrete inputs.
use mcchost.Base.{ℕ, ◌+◌, ◌-◌, ◌*◌, ◌≡◌, ◌<◌, ◌≤◌, refl, ap, false, List, [], ◌∷◌, arith, ◌==◌}
use mcchost.Base.Int.{ℤ, pos, int32, ◌+ℤ◌, ◌*ℤ◌, ◌-ℤ◌, negsuc}
use mcchost.Packet.Encode.{nb_block_t}
use mcchost.Convert.{
  Limits, why_fallback, follow_fallback, cpe_convert, proto_convert, first_known, shown_as,
  f_block_convert, block_convert,
}
use mcchost.Convert.Bounds.{block_read, block_read-nb_block_t}
use mcchost.Dates.{mktime_t, iso8601_to_time_t, div_ℤ, mod_ℤ, is_ly, is_div_by, num_ly, month_days}
use mcchost.Dates.Calendar.{days_before, days_before_max, mktime_t-days_before}
use mcchost.Dates.Text.{two_digits, four_digits, Reads, stamp, iso8601_to_time_t-stamp}
use mcchost.Spam.{
  window_ms, over, Counter, Rules, ms_deadline, add_antispam_event, after_events, any_too_soon,
  lift_ban, restart, count_event, ban,
}
use mcchost.Spam.Deadline.{pace}
use mcchost.Spam.Rate.{add_antispam_event_rate, any_too_soon-Spaced}
use mcchost.Tests.Packets.{cpe_client}

-- A classic client, and a block of a level that it shows as wood.
abbrev classic : Limits
classic = record {
  level_block_limit = 50;
  client_block_limit = 256;
  classic_limit_blocks = false;
  customblock_enabled = false;
  extn_blockdefn = false;
  extn_extendtexno = false;
  tex16_def = λ b. false;
  blockdef = λ b. record { defined = b == 300; fallback = 5 };
}

block_convert_runs : (block_convert classic 300 ≡ 5) × (block_convert classic 51 ≡ 39)
unfolding block_convert f_block_convert first_known shown_as follow_fallback why_fallback
    cpe_convert proto_convert
block_convert_runs = (refl, refl)

block_read-nb_block_t_example :
    block_read cpe_client (nb_block_t cpe_client (block_convert classic 300))
    ≡ block_convert classic 300
block_read-nb_block_t_example =
    block_read-nb_block_t cpe_client classic 300 (omega arith) (omega arith) (omega arith)

-- The 29th of February 2024, as the 14th month of 2023.
mktime_t-days_before_example :
    mktime_t (record {
      tm_year = pos (70 + 53);
      tm_mon = pos 13;
      tm_mday = pos 29;
      tm_hour = pos 1;
      tm_min = negsuc 4;
      tm_sec = pos 7;
    })
    ≡ (pos (((days_before (12 * 53 + 13) + 28) * 24 + 1) * 60) +ℤ negsuc 4) *ℤ pos 60 +ℤ pos 7
mktime_t-days_before_example =
    mktime_t-days_before 53 13 28 1 (negsuc 4) (pos 7)
      (omega (arith, days_before_max (12 * 53 + 13)))

mktime_t_runs :
    mktime_t (record {
      tm_year = pos 124;
      tm_mon = pos 1;
      tm_mday = pos 29;
      tm_hour = pos 0;
      tm_min = pos 0;
      tm_sec = pos 0;
    })
    ≡ pos 1709164800
unfolding mktime_t int32 div_ℤ mod_ℤ is_ly is_div_by num_ly month_days ◌+ℤ◌ ◌-ℤ◌ ◌*ℤ◌
mktime_t_runs = refl

-- An `atoi` for texts of digits.
abbrev digits : ℕ → List ℕ → ℕ
digits n [] = n
digits n (c ∷ cs) = digits (10 * n + (c - 48)) cs

abbrev reads : List ℕ → ℤ
reads cs = pos (digits 0 cs)

reads-Reads : Reads reads
reads-Reads = record { two = λ n h. ap pos (two n h); four = λ n h. ap pos (four n h) }
  where
    two : (n : ℕ) → n < 100 → digits 0 (two_digits n) ≡ n
    two n h = omega arith

    four : (n : ℕ) → n < 10000 → digits 0 (four_digits n) ≡ n
    four n h = omega arith

iso8601_to_time_t-stamp_example :
    iso8601_to_time_t reads (stamp 2024 2 29 12 30 59)
    ≡ pos ((((days_before (12 * 54 + 1) + 28) * 24 + 12) * 60 + 30) * 60 + 59)
iso8601_to_time_t-stamp_example =
    iso8601_to_time_t-stamp reads 2024 2 29 12 30 59 reads-Reads (omega arith) (omega arith)
      (omega arith) (omega arith) (omega arith) (omega arith) (omega arith) (omega arith)
      (omega arith)

-- Five messages in ten seconds.
abbrev chat_rules : Rules
chat_rules = record { spam_count = 5; spam_time = 10; spam_ban = 60; exempt = false }

abbrev fresh : Counter
fresh = record { ms_start = 0; banned_til = 0; events = 0; cheater = 0; ban_flg = false }

let_through :
    (add_antispam_event chat_rules 100200
      (after_events chat_rules (100000 ∷ 100050 ∷ 100100 ∷ []) fresh)).0
    ≡ false
unfolding after_events add_antispam_event lift_ban restart count_event ban ms_deadline window_ms
    over int32 div_ℤ
let_through = refl

fresh_deadline : ms_deadline chat_rules fresh ≤ 100000
unfolding ms_deadline int32 div_ℤ
fresh_deadline = omega arith

add_antispam_event_rate_example : 100000 + 3 * pace chat_rules ≤ 100200 + 10000
add_antispam_event_rate_example =
    add_antispam_event_rate chat_rules (omega arith) refl (omega arith) 100000
      (100050 ∷ 100100 ∷ []) 100200 fresh (omega arith) (omega arith, (omega arith, tt))
      (omega arith) let_through

any_too_soon-Spaced_example : any_too_soon chat_rules (100000 ∷ 102000 ∷ 104500 ∷ []) fresh ≡ false
any_too_soon-Spaced_example =
    any_too_soon-Spaced chat_rules (omega arith) refl (100000 ∷ 102000 ∷ 104500 ∷ []) fresh refl
      (fresh_deadline, (omega arith, (omega arith, tt)))
