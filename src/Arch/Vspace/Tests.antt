-- ===== src/Arch/Vspace/Tests.antt =====
-- Mapping and unmapping on a machine of forty-eight frames.
use ulmeros.Common.{ℕ, zero, suc, ◌<◌, ◌≡◌, refl, true, [], ◌∷◌, arith, ◌+◌, ◌*◌, get_or}
use ulmeros.Common.Outcome.{ok}
use ulmeros.Util.Bitmap.{byte_size}
use ulmeros.Common.Bits.{is_clear}
use ulmeros.Mm.Page.{Phys, IsReady}
use ulmeros.Arch.Vspace.{present, Flags, vspace_map, vspace_unmap}
use ulmeros.Arch.Vspace.Map.{MapsTo, vspace_map-MapsTo}
use ulmeros.Arch.Vspace.Unmap.{Unmaps, vspace_unmap-Unmaps}

-- frames 0 to 4 are in use, and every word of memory is `word` of its frame
abbrev machine : (ℕ → ℕ) → Phys
machine word = record {
  free_pages = record { size = 48; bitmap = 0x1f ∷ 0 ∷ 0 ∷ 0 ∷ 0 ∷ 0 ∷ [] };
  frames = λ ppn i. word ppn;
}

bytes_small : (i : ℕ) → get_or (0x1f ∷ 0 ∷ 0 ∷ 0 ∷ 0 ∷ 0 ∷ []) i 0 < 256
bytes_small zero = omega arith
bytes_small (suc zero) = omega arith
bytes_small (suc (suc zero)) = omega arith
bytes_small (suc (suc (suc zero))) = omega arith
bytes_small (suc (suc (suc (suc zero)))) = omega arith
bytes_small (suc (suc (suc (suc (suc zero))))) = omega arith
bytes_small (suc (suc (suc (suc (suc (suc i)))))) = omega arith

machine-IsReady : (word : ℕ → ℕ) → IsReady (machine word)
unfolding byte_size
machine-IsReady word = record {
  valid = record { buffer = refl; bytes = bytes_small };
  padded = λ i h k. absurd (omega arith);
}

abbrev empty : Phys
empty = machine (λ ppn. 0)

abbrev user_data : Flags
user_data = record { no_exec = true; write = true; user = true }

no_entry : present 0 ≡ true → ⊥
unfolding present
no_entry e = absurd (ground arith)

vspace_map-MapsTo_example :
    (p' : Phys) × (vspace_map empty 1 5 17 user_data ≡ ok p') × MapsTo empty 1 5 17 user_data p'
unfolding is_clear
vspace_map-MapsTo_example =
    vspace_map-MapsTo empty 1 5 17 user_data 5 6 7 (machine-IsReady (λ ppn. 0)) (omega arith)
      (omega arith) (refl, λ e. absurd (no_entry e)) (omega arith) (omega arith) (omega arith) refl
      refl refl

-- each frame is a table of entries that lead to the next one
abbrev mapped : Phys
mapped = machine (λ ppn. (ppn + 1) * 4096 + 7)

vspace_unmap-Unmaps_example : Unmaps mapped 0 5 (vspace_unmap mapped 0 5)
vspace_unmap-Unmaps_example =
    vspace_unmap-Unmaps mapped 0 5 (machine-IsReady (λ ppn. (ppn + 1) * 4096 + 7))
