-- ===== src/Decoder/Dicts.antt =====
-- The dicts ARCH_NAMES and FAULT_NAMES of tools/decode_panicdump.py.
use panicdump.Base.{ℕ, List, ◌==◌, if◌then◌else◌}
use panicdump.Export.{codes}

-- `ARCH_NAMES.get`
abbrev pub arch_name : ℕ → List ℕ → List ℕ
arch_name n default =
    if n == 3 then codes "Cortex-M3" else if n == 4 then codes "Cortex-M4" else default

-- `FAULT_NAMES.get`
abbrev pub fault_name : ℕ → List ℕ → List ℕ
fault_name n default =
    if n == 0
    then codes "Unknown"
    else if n == 1
    then codes "HardFault"
    else if n == 2
    then codes "MemManage"
    else if n == 3
    then codes "BusFault"
    else if n == 4
    then codes "UsageFault"
    else if n == 5
    then codes "SW_Trigger"
    else default
