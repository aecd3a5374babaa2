-- ===== src/Driver/Cdev/Fields.antt =====
-- What creating the character device returns; and it leaves an idle device idle and the counters
-- at 0.
use phantomfpga_project.Base.{◌-◌, ◌≡◌, [], ◌∷◌, arith}
use phantomfpga_project.Driver.Device.{Device, max_devices}
use phantomfpga_project.Driver.Idle.{IsIdle, IsUncounted}
use phantomfpga_project.Driver.Resources.{Kernel, first_failure, answered}
use phantomfpga_project.Driver.Cdev.{create_cdev}

module _ (k : Kernel) (d : Device) where
  pub create_cdev-IsIdle : IsIdle d → IsIdle (create_cdev k d).device
  unfolding create_cdev
  create_cdev-IsIdle idle = ground arith

  pub create_cdev-IsUncounted : IsUncounted d → IsUncounted (create_cdev k d).device
  unfolding create_cdev
  create_cdev-IsUncounted uncounted = ground arith

  pub create_cdev-status :
      (create_cdev k d).status
      ≡ first_failure (
          answered (k.ida_alloc_max (max_devices - 1)) ∷ k.cdev_add ∷ answered k.device_create ∷ [])
  unfolding create_cdev
  create_cdev-status = ground arith
