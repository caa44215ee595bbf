-- ===== src/App/Version.antt =====
-- internal/app/version.go. What the linker sets and what the toolchain has recorded are arguments.
use dvm.Base.{
  Bytes, codes, ◌≟◌, is_empty, length, ltb, take, Option, none, some, List, [], ◌∷◌, ◌++◌,
  if◌then◌else◌, ◌≡◌, refl,
}
use dvm.Host.{Host}
use dvm.Platform.{target}
use dvm.Samples.{linux_host}

-- The variables that the linker can set
pub record BuildData : Type 0 where
  pub app_version : Bytes
  pub git_commit : Bytes
  pub build_date : Bytes

unfoldable pub revision : List (Bytes × Bytes) → Bytes
revision [] = codes "unknown"
revision ((key, value) ∷ settings) =
    let rest = revision settings in
    if key ≟ codes "vcs.revision"
    then if ltb 12 (length value) then take 12 value else value
    else rest

unfoldable pub recorded : Option (List (Bytes × Bytes)) → Bytes
recorded none = codes "unknown"
recorded (some settings) = revision settings

-- `commit`, from the settings of the build, if there are any
unfoldable pub commit_text : BuildData → Option (List (Bytes × Bytes)) → Bytes
commit_text b settings = if is_empty b.git_commit then recorded settings else b.git_commit

-- A line that is left out where it has no value
unfoldable pub fact : Bytes → Bytes → Bytes
fact label value = if is_empty value then [] else label ++ (value ++ codes "\n")

-- `VersionInfo`
unfoldable pub version_info :
    Host → BuildData → Option (List (Bytes × Bytes)) → Bytes → Bytes → Bytes → Bytes
version_info h b settings asset_version guest_image qemu =
    codes "dvm "
    ++ (b.app_version
        ++ (codes "\nCommit: "
            ++ (commit_text b settings
                ++ (codes "\n"
                    ++ (fact (codes "Built: ") b.build_date
                        ++ (fact (codes "Asset version: ") asset_version
                            ++ (fact (codes "Guest image: ") guest_image
                                ++ (fact (codes "QEMU: ") qemu
                                    ++ (codes "Host target: " ++ target h)))))))))

version_of_a_checkout :
    version_info linux_host
      (record { app_version = codes "dev"; git_commit = []; build_date = [] })
      (some ((codes "vcs.revision", codes "0123456789abcdef") ∷ []))
      []
      []
      []
    ≡ codes "dvm dev\nCommit: 0123456789ab\nHost target: linux/amd64"
unfolding version_info commit_text recorded revision ◌≟◌ fact target
version_of_a_checkout = refl
