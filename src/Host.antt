-- ===== src/Host.antt =====
-- What the program asks of the operating system: the answers of the packages os, runtime and
-- net/http at the moment of the call. They are an argument of every definition that uses them.
use dvm.Base.{ℕ, Bool, Bytes, Option}

pub record FileInfo : Type 0 where
  pub base_name : Bytes
  pub is_dir : Bool
  pub size : ℕ

pub record Host : Type 0 where
  pub goos : Bytes
  pub goarch : Bytes
  pub stat : Bytes → Option FileInfo
  pub read_file : Bytes → Option Bytes
  pub user_home_dir : Option Bytes
  pub user_config_dir : Option Bytes
  -- the working directory, from which filepath.Abs starts
  pub getwd : Option Bytes
  -- whether os.OpenFile with O_RDWR succeeds
  pub open_rw : Bytes → Bool
  -- the status code and the body of a GET, if there was a reply
  pub http_get : Bytes → Option (ℕ × Bytes)
