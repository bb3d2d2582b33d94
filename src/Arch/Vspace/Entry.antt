-- ===== src/Arch/Vspace/Entry.antt =====
-- The fields of a page table entry: what each write leaves to be read.
use ulmeros.Common.{ℕ, ◌/◌, ◌%◌, ◌^◌, ◌<◌, ◌≡◌, Bool, true, false, arith}
use ulmeros.Arch.Vspace.{
  present, entry_ppn, with_present, with_write, with_user, with_no_exec, with_ppn, bit_of, Flags,
  leaf_word,
}

pub present-with_ppn : (w ppn : ℕ) → present (with_ppn w ppn) ≡ present w
unfolding present with_ppn
present-with_ppn w ppn = ground arith

pub entry_ppn-with_ppn : (w ppn : ℕ) → ppn < 2 ^ 40 → entry_ppn (with_ppn w ppn) ≡ ppn
unfolding entry_ppn with_ppn
entry_ppn-with_ppn w ppn h = omega arith

pub present_marked : (w : ℕ) → present (with_user (with_write (with_present w) 1) 1) ≡ true
unfolding present with_user with_write with_present
present_marked w = ground arith

-- What the processor reads of a filled leaf entry is what `vspace_map` was given.
pub record Fields (w phys : ℕ) (flags : Flags) : Type 0 where
  pub is_present : present w ≡ true
  pub page : entry_ppn w ≡ phys
  pub may_write : w / 2 % 2 ≡ bit_of flags.write
  pub for_user : w / 4 % 2 ≡ bit_of flags.user
  pub not_exec : w / 2 ^ 63 ≡ bit_of flags.no_exec

bit_small : (b : Bool) → bit_of b < 2
bit_small true = omega arith
bit_small false = omega arith

pub leaf_word-Fields :
    (w phys : ℕ) (flags : Flags) → phys < 2 ^ 40 → Fields (leaf_word w phys flags) phys flags
unfolding leaf_word present entry_ppn with_ppn with_user with_write with_no_exec with_present
leaf_word-Fields w phys flags h = record {
  is_present = ground (arith, bit_small flags.write, bit_small flags.user, bit_small flags.no_exec);
  page = omega arith;
  may_write = omega (arith, bit_small flags.write, bit_small flags.user, bit_small flags.no_exec);
  for_user = omega (arith, bit_small flags.write, bit_small flags.user, bit_small flags.no_exec);
  not_exec = omega (arith, bit_small flags.write, bit_small flags.user, bit_small flags.no_exec);
}
