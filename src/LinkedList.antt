-- ===== src/LinkedList.antt =====
-- src/util/list.c and src/util/node.c: doubly linked lists on a heap. A pointer is an address, `none` for
-- NULL; an address that the heap does not have is that of a node that has been freed, or never was.
pub mod Linked
pub mod Represents
pub mod Pushes
pub mod Pops
pub mod Sequences
use sol_project.Prelude.{
  ℕ, ◌+◌, ◌-◌, ◌%◌, ◌^◌, Bool, true, false, Option, none, some, eqb, if◌then◌else◌,
}
use sol_project.Server.State.{Outcome, done, crashed, ◌>>=◌, inc32, dec32}

-- `node_t`, with its key and data
pub record Node (V : Type 0) : Type 0 where
  pub value : V
  pub prev : Option ℕ
  pub next : Option ℕ

abbrev pub Heap : Type 0 → Type 0
Heap V = ℕ → Option (Node V)

-- `list_t`
pub record NodeList : Type 0 where
  pub head : Option ℕ
  pub tail : Option ℕ
  pub nelem : ℕ

-- What an operation returns: `false` for -1, a value if it takes one out, the list and the heap.
abbrev pub Done : Type 0 → Type 0
Done V = Bool × Option V × NodeList × Heap V

-- `empty_list`
unfoldable pub empty_list : NodeList
empty_list = record { head = none; tail = none; nelem = 0 }

module _ {V : Type 0} where
  abbrev pub put : Heap V → ℕ → Node V → Heap V
  put heap a node b = if eqb b a then some node else heap b

  -- `free`
  abbrev pub free : Heap V → ℕ → Heap V
  free heap a b = if eqb b a then none else heap b

  abbrev pub found : ℕ → Option (Node V) → Outcome (ℕ × Node V)
  found a none = crashed
  found a (some node) = done (a, node)

  -- what a pointer points to
  abbrev pub deref : Heap V → Option ℕ → Outcome (ℕ × Node V)
  deref heap none = crashed
  deref heap (some a) = found a (heap a)

  -- `create_node`
  abbrev pub create_node : V → Node V
  create_node value = record { value = value; prev = none; next = none }

  abbrev pub push_front_at : NodeList → V → ℕ → Heap V → Outcome (Done V)
  push_front_at list value a heap =
      if eqb list.nelem 0
      then done (
        true,
        none,
        record { head = some a; tail = some a; nelem = inc32 list.nelem },
        put heap a (create_node value),
      )
      else (deref (put heap a (record (create_node value) { next = list.head })) list.head >>= λ h.
          done (
            true,
            none,
            record list { head = some a; nelem = inc32 list.nelem },
            put (put heap a (record (create_node value) { next = list.head })) h.0
                (record h.1 { prev = some a }),
          ))

  -- `list_push_front`, with what `malloc` returns
  unfoldable pub list_push_front : NodeList → V → Option ℕ → Heap V → Outcome (Done V)
  list_push_front list value none heap = done (false, none, list, heap)
  list_push_front list value (some a) heap = push_front_at list value a heap

  abbrev pub push_back_at : NodeList → V → ℕ → Heap V → Outcome (Done V)
  push_back_at list value a heap =
      if eqb list.nelem 0
      then done (
        true,
        none,
        record { head = some a; tail = some a; nelem = inc32 list.nelem },
        put heap a (create_node value),
      )
      else (deref (put heap a (record (create_node value) { prev = list.tail })) list.tail >>= λ t.
          done (
            true,
            none,
            record list { tail = some a; nelem = inc32 list.nelem },
            put (put heap a (record (create_node value) { prev = list.tail })) t.0
                (record t.1 { next = some a }),
          ))

  -- `list_push_back`
  unfoldable pub list_push_back : NodeList → V → Option ℕ → Heap V → Outcome (Done V)
  list_push_back list value none heap = done (false, none, list, heap)
  list_push_back list value (some a) heap = push_back_at list value a heap

  -- `list_pop_front`
  unfoldable pub list_pop_front : NodeList → Heap V → Outcome (Done V)
  list_pop_front list heap =
      if eqb list.nelem 0
      then done (false, none, list, heap)
      else (deref heap list.head >>= λ h. done (
        true,
        some h.1.value,
        record {
          head = h.1.next;
          tail = if eqb (dec32 list.nelem) 0 then none else list.tail;
          nelem = dec32 list.nelem;
        },
        free heap h.0,
      ))

  -- `list_pop_back`
  unfoldable pub list_pop_back : NodeList → Heap V → Outcome (Done V)
  list_pop_back list heap =
      if eqb list.nelem 0
      then done (false, none, list, heap)
      else (deref heap list.tail >>= λ t. done (
        true,
        some t.1.value,
        record {
          head = if eqb (dec32 list.nelem) 0 then none else list.head;
          tail = t.1.prev;
          nelem = dec32 list.nelem;
        },
        free heap t.0,
      ))
