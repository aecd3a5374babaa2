-- ===== src/App/Handles/FileDescriptor.antt =====
-- `class FileDescriptor`. A handle is its `fd_`; closing is an event.
use phantomfpga_project.Base.{◌≡◌, ℕ, ℤ, pos, negsuc, Bool, true, false, ◌+◌, arith}
use phantomfpga_project.Base.{List, [], ◌∷◌}
use phantomfpga_project.Posix.{Resource, descriptor, Event, takes, gives, one_of, Leads}

pub record FileDescriptor : Type 0 where
  pub fd : ℤ

abbrev pub no_file : FileDescriptor
no_file = record { fd = negsuc 0 }

abbrev pub is_valid : FileDescriptor → Bool
is_valid f = elim f.fd [ pos n ↦ true | negsuc n ↦ false ]

-- `if (fd_ >= 0) ::close(fd_);`
abbrev pub close_fd : ℤ → List Event
close_fd (pos n) = gives (descriptor n) ∷ []
close_fd (negsuc n) = []

-- The destructor.
abbrev pub destroy : FileDescriptor → List Event
destroy f = close_fd f.fd

-- The move constructor: the new handle, and the other one afterwards.
abbrev pub move : FileDescriptor → FileDescriptor × FileDescriptor
move other = (record { fd = other.fd }, no_file)

-- `this = std::move(other)`, where the flag is `this == &other`: both handles afterwards.
abbrev pub assign :
    Bool → FileDescriptor → FileDescriptor → FileDescriptor × FileDescriptor × List Event
assign true this other = (this, other, [])
assign false this other = (record { fd = other.fd }, no_file, close_fd this.fd)

abbrev pub release : FileDescriptor → ℤ × FileDescriptor
release f = (f.fd, no_file)

-- How often a handle owns `r`.
abbrev pub owned_fd : Resource → ℤ → ℕ
owned_fd r (pos n) = one_of r (descriptor n)
owned_fd r (negsuc n) = 0

abbrev pub owned : Resource → FileDescriptor → ℕ
owned r f = owned_fd r f.fd

-- Closing gives up what is owned and nothing else.
pub close_fd-Leads : (r : Resource) (fd : ℤ) (d : ℕ) → Leads r (close_fd fd) (owned_fd r fd + d) d
unfolding one_of
close_fd-Leads r (pos n) d = ground arith
close_fd-Leads r (negsuc n) d = ground arith

-- What the kernel does before a handle is made of its answer.
abbrev pub open_fd : ℤ → List Event
open_fd (pos n) = takes (descriptor n) ∷ []
open_fd (negsuc n) = []

pub open_fd-Leads : (r : Resource) (fd : ℤ) (d : ℕ) → Leads r (open_fd fd) d (owned_fd r fd + d)
unfolding one_of
open_fd-Leads r (pos n) d = ground arith
open_fd-Leads r (negsuc n) d = ground arith

-- The same between any two counts that differ by what is owned.
pub close_fd-Leads_to :
    (r : Resource) (fd : ℤ) (n m : ℕ) → n ≡ owned_fd r fd + m → Leads r (close_fd fd) n m
close_fd-Leads_to r fd n m e = rw e (close_fd-Leads r fd m)
