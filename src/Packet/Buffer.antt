-- ===== src/Packet/Buffer.antt =====
-- The guards of CPacket: `CheckDataExists` before a read, and `CheckDataBuffer`, which makes
-- room before a write.
use dummy_client.Common.{ℕ, zero, suc, Option, none, some, List, Bool, true, false}
use dummy_client.Common.{if◌then◌else◌, replicate}
use dummy_client.Common.Int.{ℤ, pos, negsuc, leb_ℤ, ltb_ℤ, eqb_ℤ, sub_int, double_int}
use dummy_client.Trace.{error, int_param}
use dummy_client.Outcome.{Outcome, ok, fault, bad_alloc, out_of_fuel}
use dummy_client.Packet.State.{Cell, M, ◌>>=◌, ◌>>◌, pure, lift, this, set_this, write_log}
use dummy_client.Packet.State.{store, copy_front}

-- `CPacket::CheckDataExists`: the shortage is logged with the size that was asked for.
unfoldable pub check_data_exists : {N : Type 0} → ℤ → M N Bool
check_data_exists size = do
  p ← this
  if leb_ℤ size (sub_int p.data_length (pos p.data_pointer))
      then pure true
      else write_log error "CPacket::CheckDataExists" (int_param size) >> pure false

abbrev pub buffer_base_size : ℕ
buffer_base_size = 2048

-- `new char[n]`: the bytes are not initialised, and a negative size throws.
unfoldable pub new_chars : ℤ → Outcome (List Cell)
new_chars (pos n) = ok (replicate n none)
new_chars (negsuc n) = fault bad_alloc

abbrev pub pointer_size : ℕ
pointer_size = 8

-- `memset(m_strData, 0, sizeof(m_strData))`: the size is that of the pointer.
unfoldable pub clear_new : List Cell → Outcome (List Cell)
unfolding store
clear_new = store 0 (replicate pointer_size 0)

-- `if (olddata != NULL) memcpy(m_strData, olddata, m_nDataPointer)`.
unfoldable pub keep_old : Option (List Cell) → ℕ → List Cell → Outcome (List Cell)
unfolding copy_front
keep_old none n new = ok new
keep_old (some old) n new = copy_front n old new

unfoldable pub next_length : ℤ → ℤ
unfolding double_int
next_length len = if eqb_ℤ len (pos 0) then pos buffer_base_size else double_int len

-- One round of the loop of `CheckDataBuffer`.
unfoldable pub enlarge : {N : Type 0} → M N (Unit {0})
enlarge = do
  p ← this
  let len = next_length p.data_length
  fresh ← lift (new_chars len)
  cleared ← lift (clear_new fresh)
  kept ← lift (keep_old p.str_data p.data_pointer cleared)
  set_this (record p { data_length = len; str_data = some kept })

unfoldable pub is_short : {N : Type 0} → ℤ → M N Bool
is_short size = do p ← this; pure (ltb_ℤ (sub_int p.data_length (pos p.data_pointer)) size)

-- The loop, on fuel: `none` of the faults of a real run is `out_of_fuel`.
unfoldable pub grow : {N : Type 0} → ℕ → ℤ → M N (Unit {0})
grow zero size = lift (fault out_of_fuel)
grow (suc fuel) size =
    is_short size >>= λ short. elim short [ true ↦ enlarge >> grow fuel size | false ↦ pure tt ]

-- The length doubles until it holds the bytes asked for, or until the doubling wraps to a
-- negative number and `new` throws: 34 rounds are enough for either.
abbrev pub grow_fuel : ℕ
grow_fuel = 34

-- `CPacket::CheckDataBuffer`.
unfoldable pub check_data_buffer : {N : Type 0} → ℤ → M N (Unit {0})
check_data_buffer size = grow grow_fuel size
