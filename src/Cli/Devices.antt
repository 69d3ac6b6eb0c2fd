-- ===== src/Cli/Devices.antt =====
-- src/cli.c: the device ports, and the dump of the stacks. The devices themselves are arguments.
use buxn_jit.Prelude.{ℕ, zero, suc, ◌+◌, ◌==◌, List, [], ◌∷◌, if◌then◌else◌}

-- BUXN_DEVICE_SYSTEM, BUXN_DEVICE_CONSOLE and BUXN_DEVICE_DATETIME
pub record DeviceIds : Type 0 where
  pub system : ℕ
  pub console : ℕ
  pub datetime : ℕ

-- The reads and writes of the devices of the VM, and `buxn_device_id`
pub record Devices (V : Type 0) : Type 0 where
  pub ids : DeviceIds
  pub device_id : ℕ → ℕ
  pub system_dei : V → ℕ → ℕ
  pub console_dei : V → ℕ → ℕ
  pub datetime_dei : V → ℕ → ℕ
  pub memory : V → ℕ → ℕ
  pub system_deo : V → ℕ → V
  pub console_deo : V → ℕ → V

module _ {V : Type 0} (d : Devices V) where
  -- `buxn_vm_dei`
  unfoldable pub vm_dei : V → ℕ → ℕ
  vm_dei v address =
      if d.device_id address == d.ids.system
      then d.system_dei v address
      else if d.device_id address == d.ids.console
      then d.console_dei v address
      else if d.device_id address == d.ids.datetime
      then d.datetime_dei v address
      else d.memory v address

  -- `buxn_vm_deo`
  unfoldable pub vm_deo : V → ℕ → V
  vm_deo v address =
      if d.device_id address == d.ids.system
      then d.system_deo v address
      else if d.device_id address == d.ids.console
      then d.console_deo v address
      else v

-- The bytes of one stack, from the bottom, in `buxn_system_debug`
unfoldable pub dump_from : (ℕ → ℕ) → ℕ → ℕ → List ℕ
dump_from stack zero i = []
dump_from stack (suc n) i = stack i ∷ dump_from stack n (i + 1)

-- `buxn_system_debug`: the two lines that are printed, if any
unfoldable pub system_debug : ℕ → (ℕ → ℕ) → ℕ → (ℕ → ℕ) → ℕ → List (List ℕ)
unfolding dump_from
system_debug value ws wsp rs rsp =
    if value == 0 then [] else dump_from ws wsp 0 ∷ dump_from rs rsp 0 ∷ []
