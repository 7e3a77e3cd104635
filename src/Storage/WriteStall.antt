-- ===== src/Storage/WriteStall.antt =====
-- crates/noedb-storage/src/write_stall.rs: the gate in front of a write.
use noe_db.Base.{ltb, leb, ℕ, if◌then◌else◌, min, ◌-◌, ◌+◌, ◌*◌, ◌&&◌, ◌/◌}
use noe_db.Storage.Error.{Result, ok, err, resource_exhausted}
use noe_db.Base.Words.{u64_max}

pub record WriteStallConfig : Type 0 where
  pub l0_slowdown_trigger : ℕ
  pub l0_stop_trigger : ℕ
  pub slowdown_ms_per_file : ℕ
  pub max_slowdown_ms : ℕ

abbrev pub default_stall : WriteStallConfig
default_stall = record {
  l0_slowdown_trigger = 3;
  l0_stop_trigger = 8;
  slowdown_ms_per_file = 8;
  max_slowdown_ms = 250;
}

-- The milliseconds that the write sleeps, or the refusal.
unfoldable pub gate_write : WriteStallConfig → ℕ → ℕ → ℕ → Result ℕ
gate_write c l0_count mem_bytes max_mem_bytes =
    if leb c.l0_stop_trigger l0_count
    then err resource_exhausted
    else ok (
        (if leb c.l0_slowdown_trigger l0_count
          then min (min ((l0_count - c.l0_slowdown_trigger + 1) * c.slowdown_ms_per_file) u64_max)
              c.max_slowdown_ms
          else 0)
        + (if ltb 0 max_mem_bytes && leb (max_mem_bytes * 9 / 10) mem_bytes then 5 else 0))
