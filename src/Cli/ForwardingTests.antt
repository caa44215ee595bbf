-- ===== src/Cli/ForwardingTests.antt =====
-- Tests of the arguments of QEMU for a command line.
use dvm.Base.{codes, [], ◌∷◌, List, true, false}
use dvm.Cli.Commands.{Parsed}
use dvm.Cli.Arguments.{text}
use dvm.Cli.Table.{text_flag, add_port}
use dvm.Cli.Spelling.{Setting, joined, apart}

-- --data-dir=/s --cache-dir /c -port=2222:22
abbrev settings : List (Setting Parsed)
settings =
    record {
      name = codes "data-dir";
      value = codes "/s";
      spelling = joined true;
      setter = text_flag λ v f. record f { data_dir = v };
    }
    ∷ record {
      name = codes "cache-dir";
      value = codes "/c";
      spelling = apart true;
      setter = text_flag λ v f. record f { cache_dir = v };
    }
    ∷ record {
      name = codes "port";
      value = codes "2222:22";
      spelling = joined false;
      setter = text add_port;
    }
    ∷ []
