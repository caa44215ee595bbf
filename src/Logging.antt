-- ===== src/Logging.antt =====
-- internal/logging/logging.go. A writer is what has been written to it; a message is taken after its
-- formatting.
use dvm.Base.{
  Bytes, codes, is_empty, Bool, false, true, Option, none, some, [], ◌∷◌, ◌++◌, if◌then◌else◌, ◌≡◌,
  refl,
}

pub record Logger : Type 0 where
  pub out : Bytes
  pub log_file : Option Bytes
  pub debug : Bool

-- `New`
unfoldable pub new_logger : Bytes → Bool → Logger
new_logger out debug = record { out = out; log_file = none; debug = debug }

-- `SetFile`
unfoldable pub set_file : Option Bytes → Logger → Logger
set_file w l = record l { log_file = w }

-- `SetDebug`
unfoldable pub set_debug : Bool → Logger → Logger
set_debug d l = record l { debug = d }

unfoldable pub log_line : Bytes → Bytes → Bytes
log_line prefix msg =
    if is_empty prefix then msg ++ codes "\n" else prefix ++ (b' ' ∷ (msg ++ codes "\n"))

abbrev written : Bytes → Option Bytes → Option Bytes
written line none = none
written line (some text) = some (text ++ line)

unfoldable pub emit : Bytes → Bytes → Logger → Logger
unfolding log_line
emit prefix msg l = record l {
  out = l.out ++ log_line prefix msg;
  log_file = written (log_line prefix msg) l.log_file;
}

unfoldable pub infof : Bytes → Logger → Logger
infof = emit []

unfoldable pub warnf : Bytes → Logger → Logger
warnf = emit (codes "warning:")

unfoldable pub errorf : Bytes → Logger → Logger
errorf = emit (codes "error:")

unfoldable pub debugf : Bytes → Logger → Logger
debugf msg l = if l.debug then emit (codes "[debug]") msg l else l

warned :
    (warnf (codes "slow") (set_file (some []) (new_logger [] false))).log_file
    ≡ some (codes "warning: slow\n")
unfolding warnf emit set_file new_logger log_line
warned = refl

silent : (debugf (codes "x") (new_logger [] false)).out ≡ []
unfolding debugf new_logger
silent = refl

loud : (debugf (codes "x") (set_debug true (new_logger [] false))).out ≡ codes "[debug] x\n"
unfolding debugf set_debug new_logger emit log_line
loud = refl
