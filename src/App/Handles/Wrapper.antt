-- ===== src/App/Handles/Wrapper.antt =====
-- What a move-only wrapper of one resource promises, and the two classes that keep the promise.
use phantomfpga_project.Base.{ℕ, Bool, true, false, ◌≡◌, ◌+◌, refl, List, []}
use phantomfpga_project.Posix.{Resource, Event, Leads}
use phantomfpga_project.App.Handles.FileDescriptor
use phantomfpga_project.App.Handles.MappedMemory

pub record Wrapper : Type 1 where
  pub Handle : Type 0
  pub empty : Handle
  pub destroy : Handle → List Event
  pub assign : Bool → Handle → Handle → Handle × Handle × List Event
  pub obtain : Handle → List Event
  pub owned : Resource → Handle → ℕ
  -- An empty handle owns nothing, and the destructor gives up what is owned.
  pub owned-empty : (r : Resource) → owned r empty ≡ 0
  pub destroy-Leads : (r : Resource) (h : Handle) (d : ℕ) → Leads r (destroy h) (owned r h + d) d
  -- What the kernel hands over before a handle is made is what the handle owns.
  pub obtain-Leads : (r : Resource) (h : Handle) (d : ℕ) → Leads r (obtain h) d (owned r h + d)
  -- Assignment moves: to itself it does nothing, to another handle it passes on what is owned.
  pub assign-self : (h : Handle) → assign true h h ≡ (h, h, [])
  pub assign-other : (g h : Handle) → assign false g h ≡ (h, empty, destroy g)

abbrev pub file_descriptor : Wrapper
file_descriptor = record {
  Handle = FileDescriptor.FileDescriptor;
  empty = FileDescriptor.no_file;
  destroy = FileDescriptor.destroy;
  assign = FileDescriptor.assign;
  obtain = λ h. FileDescriptor.open_fd h.fd;
  owned = FileDescriptor.owned;
  owned-empty = λ r. refl;
  destroy-Leads = λ r h d. FileDescriptor.close_fd-Leads r h.fd d;
  obtain-Leads = λ r h d. FileDescriptor.open_fd-Leads r h.fd d;
  assign-self = λ h. refl;
  assign-other = λ g h. refl;
}

abbrev pub mapped_memory : Wrapper
mapped_memory = record {
  Handle = MappedMemory.MappedMemory;
  empty = MappedMemory.no_memory;
  destroy = MappedMemory.destroy;
  assign = MappedMemory.assign;
  obtain = λ h. MappedMemory.map h.addr h.size;
  owned = MappedMemory.owned;
  owned-empty = λ r. refl;
  destroy-Leads = λ r h d. MappedMemory.unmap-Leads r h.addr h.size d;
  obtain-Leads = λ r h d. MappedMemory.map-Leads r h.addr h.size d;
  assign-self = λ h. refl;
  assign-other = λ g h. refl;
}
