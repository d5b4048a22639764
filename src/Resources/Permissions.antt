-- ===== src/Resources/Permissions.antt =====
-- The permissions of a file, of servente-resources/src/fs.rs: the mode of POSIX, a number of 32 bits.
use servente.Common.{ℕ, ◌/◌, ◌%◌, ◌≡◌, ◌↔◌, ◌⊎◌, arith, ◌==◌, Bool, true, false, ◌||◌}

pub record CategoryPermissions : Type 0 where
  pub read : Bool
  pub write : Bool
  pub execute : Bool

unfoldable pub from_bits : ℕ → CategoryPermissions
from_bits b = record { read = b / 4 % 2 == 1; write = b / 2 % 2 == 1; execute = b % 2 == 1 }

pub data PermissionCategory : Type 0 where
  owner group others : PermissionCategory

-- `self.0 as u8` keeps the low eight bits of the mode.
unfoldable pub permissions : ℕ → PermissionCategory → CategoryPermissions
unfolding from_bits
permissions mode owner = from_bits (mode % 256 / 64 % 8)
permissions mode group = from_bits (mode % 256 / 8 % 8)
permissions mode others = from_bits (mode % 256 % 8)

-- `any` over `PermissionCategory::all()`.
unfoldable pub is_executable : ℕ → Bool
unfolding permissions
is_executable mode =
    (permissions mode owner).execute
    || (permissions mode group).execute
    || (permissions mode others).execute

-- One of the bits 6, 3 and 0 of the mode: the execute bits of the owner, the group and the others.
abbrev HasExecuteBit : ℕ → Type 0
HasExecuteBit mode = (mode / 64 % 2 ≡ 1) ⊎ (mode / 8 % 2 ≡ 1) ⊎ (mode % 2 ≡ 1)

-- A file counts as executable exactly if one of the three execute bits of its mode is set.
is_executable_iff : (mode : ℕ) → (is_executable mode ≡ true) ↔ HasExecuteBit mode
unfolding is_executable permissions from_bits
is_executable_iff mode = ground arith

-- The read bit of the owner, bit 8 of the mode, is lost: no file counts as readable for its owner.
pub owner_is_not_readable : (mode : ℕ) → (permissions mode owner).read ≡ false
unfolding permissions from_bits
owner_is_not_readable mode = ground arith
