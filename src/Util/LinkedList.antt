-- ===== src/Util/LinkedList.antt =====
-- kernel/libutil/list.c and include/util/list.h: the doubly linked list behind the kernel's queues,
-- over an explicit memory of list items. Payloads are pointers, and any number.
pub mod Chain
pub mod Clear
pub mod Edit
pub mod Remove
pub mod Walk
mod Tests
use ulmeros.Common.{
  ℕ, zero, suc, ◌+◌, ◌-◌, ◌≡◌, Bool, true, false, not, ◌&&◌, Option, none, some, List, ltb, ◌==◌,
  if◌then◌else◌,
}
use ulmeros.Common.Outcome.{Outcome, ok, panic, fault, spinning, ◌>>=◌, ◌>>◌, assert}

abbrev pub Ptr : Type 0
Ptr = ℕ

abbrev pub null : Ptr
null = 0

-- `list_item_t`
pub record Item : Type 0 where
  pub next : Ptr
  pub prev : Ptr
  pub payload : Ptr

abbrev pub Heap : Type 0
Heap = Ptr → Option Item

-- `list_t`
pub record LinkedList : Type 0 where
  pub items : ℕ
  pub magic : ℕ
  pub first : Ptr
  pub last : Ptr

abbrev pub list_magic : ℕ
list_magic = 0xabffdeadbeefabff

abbrev pub is_some : Option Item → Bool
is_some none = false
is_some (some _) = true

-- whether a pointer may be followed
abbrev pub is_live : Heap → Ptr → Bool
is_live h p = not (p == null) && is_some (h p)

abbrev pub change : (Item → Item) → Option Item → Option Item
change f none = none
change f (some n) = some (f n)

unfoldable pub write : Heap → Ptr → Option Item → Heap
write h p c a = if a == p then c else h a

-- `p->next = q` and `p->prev = q`, once `p` is known to be live
unfoldable pub with_next : Heap → Ptr → Ptr → Heap
with_next h p q a = if a == p then change (λ n. record n { next = q }) (h a) else h a

unfoldable pub with_prev : Heap → Ptr → Ptr → Heap
with_prev h p q a = if a == p then change (λ n. record n { prev = q }) (h a) else h a

-- the same as commands, which fault at NULL and at a freed item
unfoldable pub set_next : Heap → Ptr → Ptr → Outcome Heap
set_next h p q = if is_live h p then ok (with_next h p q) else fault

unfoldable pub set_prev : Heap → Ptr → Ptr → Outcome Heap
set_prev h p q = if is_live h p then ok (with_prev h p q) else fault

abbrev found_item : Option Item → Outcome Item
found_item none = fault
found_item (some n) = ok n

unfoldable pub load : Heap → Ptr → Outcome Item
load h p = if p == null then fault else found_item (h p)

-- `SANITY_CHECK(list)`
abbrev pub sane : LinkedList → Bool
sane l = l.magic == list_magic

-- The memory given is the one before the call; nothing of the old contents is read.
pub list_init : LinkedList → LinkedList
list_init l = record { items = 0; magic = list_magic; first = null; last = null }

-- `fresh` is what `kmalloc` returns. `items` counts allocated items, so it cannot overflow.
pub list_add : (fresh : Ptr) → LinkedList → Ptr → Heap → Outcome (ℕ × LinkedList × Heap)
list_add fresh l payload h = do
  assert (sane l)
  let h₁ = write h fresh (some (record { next = null; prev = l.last; payload = payload }))
  (first, h₂) ←
      (if l.last == null
        then ok (fresh, h₁)
        else (set_next h₁ l.last fresh >>= λ h₂. ok (l.first, h₂)))
  ok (l.items, record l { items = l.items + 1; first = first; last = fresh }, h₂)

-- the loop of `list_get_index`, on fuel: the item is `i` places on
get_index_from : ℕ → Heap → Ptr → ℕ → Outcome Ptr
get_index_from zero h item i = spinning
get_index_from (suc fuel) h item i =
    if item == null
    then ok null
    else (if i == 0 then ok item else (load h item >>= λ n. get_index_from fuel h n.next (i - 1)))

list_get_index : LinkedList → ℕ → Heap → Outcome Ptr
unfolding get_index_from
list_get_index l index h = do assert (sane l); get_index_from (l.items + 1) h l.first index

pub list_it_remove : LinkedList → Ptr → Heap → Outcome (LinkedList × Heap)
list_it_remove l item h = do
  assert (sane l)
  assert (not (item == null))
  n ← load h item
  h₁ ← (if n.prev == null then ok h else set_next h n.prev n.next)
  h₂ ← (if n.next == null then ok h₁ else set_prev h₁ n.next n.prev)
  let first = if l.first == item then n.next else l.first
  let last = if l.last == item then n.prev else l.last
  ok (record l { items = l.items - 1; first = first; last = last }, write h₂ item none)

pub list_remove : LinkedList → ℕ → Heap → Outcome (LinkedList × Heap)
list_remove l index h = do assert (sane l); item ← list_get_index l index h; list_it_remove l item h

clear_from : ℕ → LinkedList → Heap → Outcome (LinkedList × Heap)
clear_from zero l h = if l.items == 0 then ok (l, h) else spinning
clear_from (suc fuel) l h =
    if l.items == 0 then ok (l, h) else (list_remove l 0 h >>= λ (l', h'). clear_from fuel l' h')

pub list_clear : LinkedList → Heap → Outcome (LinkedList × Heap)
unfolding clear_from
list_clear l h = do assert (sane l); clear_from l.items l h

pub list_destroy : LinkedList → Heap → Outcome (LinkedList × Heap)
list_destroy l h = do assert (sane l); (l', h') ← list_clear l h; ok (record l' { magic = 0 }, h')

-- The item's address, which `list_remove` has freed, and not its payload: `null` for an empty list.
pub list_pop_front : LinkedList → Heap → Outcome (Ptr × LinkedList × Heap)
list_pop_front l h = do
  assert (sane l)
  (if l.items == 0
      then ok (null, l, h)
      else (list_remove l 0 h >>= λ (l', h'). ok (l.first, l', h')))

pub list_get : LinkedList → ℕ → Heap → Outcome Ptr
list_get l index h = do
  assert (sane l)
  item ← list_get_index l index h
  if item == null then ok null else (load h item >>= λ n. ok n.payload)

pub list_size : LinkedList → Outcome ℕ
list_size l = do assert (sane l); ok l.items

-- the body of `list_rotate` at two items or more
rotate_first : LinkedList → Heap → Outcome (LinkedList × Heap)
rotate_first l h = do
  n ← load h l.first
  h₁ ← set_prev h n.next null
  h₂ ← set_prev h₁ l.first l.last
  h₃ ← set_next h₂ l.first null
  h₄ ← set_next h₃ l.last l.first
  ok (record l { first = n.next; last = l.first }, h₄)

pub list_rotate : LinkedList → Heap → Outcome (LinkedList × Heap)
unfolding rotate_first
list_rotate l h = do assert (sane l); (if ltb l.items 2 then ok (l, h) else rotate_first l h)

pub list_it_front : LinkedList → Outcome Ptr
list_it_front l = do assert (sane l); ok l.first

pub list_it_back : LinkedList → Outcome Ptr
list_it_back l = do assert (sane l); ok l.last

pub list_it_next : Heap → Ptr → Outcome Ptr
list_it_next h it = do n ← load h it; ok n.next

pub list_it_get : Heap → Ptr → Outcome Ptr
list_it_get h it = do n ← load h it; ok n.payload

find_from : ℕ → Heap → Ptr → Ptr → Outcome Ptr
find_from zero h item it = spinning
find_from (suc fuel) h item it =
    if it == null
    then ok null
    else (load h it >>= λ n. (if n.payload == item then ok it else find_from fuel h item n.next))

pub list_find : LinkedList → Ptr → Heap → Outcome Ptr
unfolding find_from
list_find l item h = do assert (sane l); find_from (l.items + 1) h item l.first
