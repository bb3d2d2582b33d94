-- ===== src/Fs/Blockdevs/Tests.antt =====
-- Two block devices, found by number and by name.
use ulmeros.Common.{◌≡◌, refl, none, some, [], ◌∷◌}
use ulmeros.Fs.Vfs.{same_text}
use ulmeros.Fs.Blockdevs.{Blockdev, bd_open, bd_get_by_name}

abbrev hda : Blockdev
hda = record { major = 2; minor = 0; capacity = 100; name = b'h' ∷ b'd' ∷ b'a' ∷ [] }

abbrev hdb : Blockdev
hdb = record { major = 2; minor = 1; capacity = 100; name = b'h' ∷ b'd' ∷ b'b' ∷ [] }

open_hdb : bd_open (hda ∷ hdb ∷ []) 2 1 ≡ some hdb
unfolding bd_open
open_hdb = refl

open_missing : bd_open (hda ∷ hdb ∷ []) 3 1 ≡ none
unfolding bd_open
open_missing = refl

name_of_hdb : bd_get_by_name (hda ∷ hdb ∷ []) hdb.name ≡ some (2, 1)
unfolding bd_get_by_name same_text
name_of_hdb = refl
