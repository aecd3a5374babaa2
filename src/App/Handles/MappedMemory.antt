-- ===== src/App/Handles/MappedMemory.antt =====
-- `class MappedMemory`. A handle is its `addr_` and `size_`; unmapping is an event.
use phantomfpga_project.Base.{ℕ, Bool, true, false, ◌+◌, arith}
use phantomfpga_project.Base.{List, [], ◌∷◌}
use phantomfpga_project.Posix.{Resource, mapping, Event, takes, gives, one_of, Leads}

-- A pointer: MAP_FAILED, nullptr, or an address.
pub data Address : Type 0 where
  map_failed null : Address
  at : ℕ → Address

pub record MappedMemory : Type 0 where
  pub addr : Address
  pub size : ℕ

abbrev pub no_memory : MappedMemory
no_memory = record { addr = map_failed; size = 0 }

abbrev pub is_valid : MappedMemory → Bool
is_valid m = elim m.addr [ at a ↦ true | map_failed ↦ false | null ↦ false ]

-- `if (addr_ != MAP_FAILED && addr_ != nullptr) ::munmap(addr_, size_);`
abbrev pub unmap : Address → ℕ → List Event
unmap (at a) size = gives (mapping a size) ∷ []
unmap map_failed size = []
unmap null size = []

-- The destructor.
abbrev pub destroy : MappedMemory → List Event
destroy m = unmap m.addr m.size

-- The move constructor: the new handle, and the other one afterwards.
abbrev pub move : MappedMemory → MappedMemory × MappedMemory
move other = (record { addr = other.addr; size = other.size }, no_memory)

-- `this = std::move(other)`, where the flag is `this == &other`: both handles afterwards.
abbrev pub assign : Bool → MappedMemory → MappedMemory → MappedMemory × MappedMemory × List Event
assign true this other = (this, other, [])
assign false this other =
    (record { addr = other.addr; size = other.size }, no_memory, unmap this.addr this.size)

-- How often a handle owns `r`.
abbrev pub owned_at : Resource → Address → ℕ → ℕ
owned_at r (at a) size = one_of r (mapping a size)
owned_at r map_failed size = 0
owned_at r null size = 0

abbrev pub owned : Resource → MappedMemory → ℕ
owned r m = owned_at r m.addr m.size

pub unmap-Leads :
    (r : Resource) (addr : Address) (size d : ℕ)
    → Leads r (unmap addr size) (owned_at r addr size + d) d
unfolding one_of
unmap-Leads r (at a) size d = ground arith
unmap-Leads r map_failed size d = ground arith
unmap-Leads r null size d = ground arith

-- What the kernel does before a handle is made of its answer.
abbrev pub map : Address → ℕ → List Event
map (at a) size = takes (mapping a size) ∷ []
map map_failed size = []
map null size = []

pub map-Leads :
    (r : Resource) (addr : Address) (size d : ℕ)
    → Leads r (map addr size) d (owned_at r addr size + d)
unfolding one_of
map-Leads r (at a) size d = ground arith
map-Leads r map_failed size d = ground arith
map-Leads r null size d = ground arith
