-- ===== src/Docs.antt =====
-- pkg/docs/docs.go: the virtual machine of an example, and the user data of its first boot. Of the
-- KubeVirt types only the fields that the code sets are kept.
use containerdisks.Base.{ℕ, Bool, true, false, List, [], ◌∷◌, ◌++◌, map, Text, codes}
use containerdisks.Go.Strconv.{quote}

pub record TemplateData : Type 0 where
  pub name : Text
  pub description : Text
  pub example : Text
  pub image : Text
  pub instancetype : Text
  pub preference : Text

pub record UserData : Type 0 where
  pub username : Text
  pub authorized_keys : List Text

-- A disk with its bus.
pub record Disk : Type 0 where
  pub name : Text
  pub bus : Text

pub data VolumeSource : Type 0 where
  container_disk cloud_init_no_cloud cloud_init_config_drive : Text → VolumeSource

pub record Volume : Type 0 where
  pub name : Text
  pub source : VolumeSource

-- The flags say that Features.SMM.Enabled and Firmware.Bootloader.EFI.SecureBoot point to true.
pub record VirtualMachine : Type 0 where
  pub kind : Text
  pub api_version : Text
  pub name : Text
  pub run_strategy : Text
  pub termination_grace_period_seconds : ℕ
  pub memory : Text
  pub disks : List Disk
  pub volumes : List Volume
  pub rng : Bool
  pub smm_enabled : Bool
  pub secure_boot : Bool

-- An option changes the machine in place.
abbrev pub VmOption : Type 0
VmOption = VirtualMachine → VirtualMachine

unfoldable pub basic_vm : Text → Text → VirtualMachine
basic_vm name image = record {
  kind = codes "VirtualMachine";
  api_version = codes "kubevirt.io/v1";
  name = name;
  run_strategy = codes "Always";
  termination_grace_period_seconds = 180;
  memory = codes "1Gi";
  disks = record { name = codes "containerdisk"; bus = codes "virtio" } ∷ [];
  volumes = record { name = codes "containerdisk"; source = container_disk image } ∷ [];
  rng = false;
  smm_enabled = false;
  secure_boot = false;
}

unfoldable pub apply_options : List VmOption → VirtualMachine → VirtualMachine
apply_options [] vm = vm
apply_options (opt ∷ opts) vm = apply_options opts (opt vm)

unfoldable pub new_vm : Text → Text → List VmOption → VirtualMachine
unfolding basic_vm apply_options
new_vm name image opts = apply_options opts (basic_vm name image)

unfoldable pub with_rng : VmOption
with_rng vm = record vm { rng = true }

unfoldable pub with_cloud_init : VolumeSource → VmOption
with_cloud_init source vm = record vm {
  disks = vm.disks ++ record { name = codes "cloudinit"; bus = codes "virtio" } ∷ [];
  volumes = vm.volumes ++ record { name = codes "cloudinit"; source = source } ∷ [];
}

unfoldable pub with_cloud_init_no_cloud : Text → VmOption
unfolding with_cloud_init
with_cloud_init_no_cloud user_data = with_cloud_init (cloud_init_no_cloud user_data)

unfoldable pub with_cloud_init_config_drive : Text → VmOption
unfolding with_cloud_init
with_cloud_init_config_drive user_data = with_cloud_init (cloud_init_config_drive user_data)

unfoldable pub with_secure_boot : VmOption
with_secure_boot vm = record vm { smm_enabled = true; secure_boot = true }

-- The `range` over the keys in data/cloudinit.tpl.
unfoldable pub key_lines : List Text → Text
key_lines [] = []
key_lines (key ∷ keys) = codes "\n  - " ++ key ++ key_lines keys

-- The template has an `else` for a list with no key.
unfoldable pub cloud_init_keys : List Text → Text
unfolding key_lines
cloud_init_keys [] = codes "\n  - ssh-rsa AAAA..."
cloud_init_keys (key ∷ keys) = key_lines (key ∷ keys)

-- The text that data/cloudinit.tpl gives.
unfoldable pub cloud_init : UserData → Text
unfolding cloud_init_keys
cloud_init d =
    codes "#cloud-config\n# The default username is: "
    ++ (d.username ++ (codes "\nssh_authorized_keys:" ++ cloud_init_keys d.authorized_keys))

-- strings.Join with the separator of data/ignition.tpl.
unfoldable pub join_keys : List Text → Text
join_keys [] = []
join_keys (key ∷ []) = key
join_keys (key ∷ next ∷ keys) = key ++ (codes ",\n          " ++ join_keys (next ∷ keys))

unfoldable pub ignition_keys : List Text → Text
unfolding join_keys
ignition_keys [] = codes "\"ssh-rsa AAAA...\""
ignition_keys (key ∷ keys) = join_keys (key ∷ keys)

-- The text that data/ignition.tpl gives, and the data afterwards: `Quote` writes the quoted keys
-- into the caller's slice.
unfoldable pub ignition : UserData → Text × UserData
unfolding ignition_keys quote
ignition d =
    let quoted = map quote d.authorized_keys in
    (
      codes
            "{\n  \"ignition\": {\n    \"version\": \"3.3.0\"\n  },\n  \"passwd\": {\n    \"users\": [\n      {\n        \"name\": \""
          ++ (d.username
              ++ (codes "\",\n        \"sshAuthorizedKeys\": [\n          "
                  ++ (ignition_keys quoted ++ codes "\n        ]\n      }\n    ]\n  }\n}"))),
      record d { authorized_keys = quoted },
    )
