-- ===== src/Util/LinkedList/Tests.antt =====
-- Lists of two and three items at given addresses.
use ulmeros.Common.{◌≡◌, refl, none, some, [], ◌∷◌, arith, ◌==◌, if◌then◌else◌}
use ulmeros.Common.Outcome.{ok}
use ulmeros.Util.LinkedList.{
  Heap, LinkedList, list_magic, list_add, list_rotate, list_it_remove, list_remove, list_pop_front,
  list_find, list_clear,
}
use ulmeros.Util.LinkedList.Chain.{Cells, item, IsList}
use ulmeros.Util.LinkedList.Edit.{Added, list_add-append, Rotated, list_rotate-Rotated}
use ulmeros.Util.LinkedList.Remove.{Removed, list_it_remove-Removed}
use ulmeros.Util.LinkedList.Walk.{
  RemovedAt, list_remove-remove_at, list_find_lem, list_pop_front_dangling,
}
use ulmeros.Util.LinkedList.Clear.{Cleared, list_clear-Cleared}

abbrev memory : Heap
memory a =
    if a == 16
    then some (item 48 0 7)
    else (if a == 48 then some (item 32 16 8) else (if a == 32 then some (item 0 48 9) else none))

abbrev three : LinkedList
three = record { items = 3; magic = list_magic; first = 16; last = 32 }

abbrev cells : Cells
cells = (16, 7) ∷ (48, 8) ∷ (32, 9) ∷ []

three-IsList : IsList memory three cells
three-IsList = record {
  magic = refl;
  items = refl;
  first = refl;
  last = refl;
  chain = (refl, omega arith, refl, (refl, omega arith, refl, (refl, omega arith, refl, tt)));
}

five-Added : Added 64 5 cells memory (list_add 64 three 5 memory)
five-Added = list_add-append 64 5 memory (omega arith) refl three cells three-IsList

three-Rotated : Rotated ((48, 8) ∷ (32, 9) ∷ (16, 7) ∷ []) memory (list_rotate three memory)
three-Rotated = list_rotate-Rotated memory three 16 7 48 8 ((32, 9) ∷ []) three-IsList

list_it_remove-Removed_example :
    Removed ((16, 7) ∷ []) (48, 8) ((32, 9) ∷ []) memory (list_it_remove three 48 memory)
list_it_remove-Removed_example =
    list_it_remove-Removed memory three ((16, 7) ∷ []) 48 8 ((32, 9) ∷ []) three-IsList

second_removed : RemovedAt memory three cells three-IsList 1 (list_remove three 1 memory)
second_removed = list_remove-remove_at memory three cells three-IsList 1 (omega arith)

nine_found : list_find three 9 memory ≡ ok 32
nine_found = list_find_lem memory three cells three-IsList 9

popped_item_freed :
    (l' : LinkedList) × (h' : Heap) × (list_pop_front three memory ≡ ok (16, l', h'))
    × IsList h' l' ((48, 8) ∷ (32, 9) ∷ [])
    × (h' 16 ≡ none)
popped_item_freed = list_pop_front_dangling memory three 16 7 ((48, 8) ∷ (32, 9) ∷ []) three-IsList

list_clear-Cleared_example : Cleared cells memory (list_clear three memory)
list_clear-Cleared_example = list_clear-Cleared memory three cells three-IsList
