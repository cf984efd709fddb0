-- ===== src/Guest/Accepting.antt =====
-- The grades of the phases that the operations of scripts/guest_installation.py accept.
use resilient_datacenter.Shared.{◌≤◌, ◌≡◌, true, false, arith}
use resilient_datacenter.Guest.State.{
  Phase, new, attach_requested, media_attached, installer_start_requested, finish_requested,
  disk_ready, disk_start_requested, disk_boot_observed, guest_installed_attested, other_phase,
}
use resilient_datacenter.Guest.Observing.{
  attachable, startable, finishable, bootable, confirmable, is_requested, is_disk_ready,
}
use resilient_datacenter.Guest.Grades.{grade}

pub attachable-grade : (p : Phase) → attachable p ≡ true → grade p ≤ 0
attachable-grade new h = omega arith
attachable-grade attach_requested h = omega arith
attachable-grade media_attached h = omega arith
attachable-grade installer_start_requested h = cc
attachable-grade finish_requested h = cc
attachable-grade disk_ready h = cc
attachable-grade disk_start_requested h = cc
attachable-grade disk_boot_observed h = cc
attachable-grade guest_installed_attested h = cc
attachable-grade (other_phase x) h = cc

pub finishable-grade : (p : Phase) → finishable p ≡ true → grade p ≤ 2
finishable-grade installer_start_requested h = omega arith
finishable-grade finish_requested h = omega arith
finishable-grade disk_ready h = omega arith
finishable-grade new h = cc
finishable-grade attach_requested h = cc
finishable-grade media_attached h = cc
finishable-grade disk_start_requested h = cc
finishable-grade disk_boot_observed h = cc
finishable-grade guest_installed_attested h = cc
finishable-grade (other_phase x) h = cc

pub confirmable-grade : (p : Phase) → confirmable p ≡ true → grade p ≤ 5
confirmable-grade disk_boot_observed h = omega arith
confirmable-grade guest_installed_attested h = omega arith
confirmable-grade new h = cc
confirmable-grade attach_requested h = cc
confirmable-grade media_attached h = cc
confirmable-grade installer_start_requested h = cc
confirmable-grade finish_requested h = cc
confirmable-grade disk_ready h = cc
confirmable-grade disk_start_requested h = cc
confirmable-grade (other_phase x) h = cc

pub bootable-grade : (p : Phase) → bootable p ≡ true → grade p ≤ 4
bootable-grade disk_ready h = omega arith
bootable-grade disk_start_requested h = omega arith
bootable-grade disk_boot_observed h = omega arith
bootable-grade new h = cc
bootable-grade attach_requested h = cc
bootable-grade media_attached h = cc
bootable-grade installer_start_requested h = cc
bootable-grade finish_requested h = cc
bootable-grade guest_installed_attested h = cc
bootable-grade (other_phase x) h = cc

pub is_disk_ready-grade : (p : Phase) → is_disk_ready p ≡ true → grade p ≤ 2
is_disk_ready-grade disk_ready h = omega arith
is_disk_ready-grade new h = cc
is_disk_ready-grade attach_requested h = cc
is_disk_ready-grade media_attached h = cc
is_disk_ready-grade installer_start_requested h = cc
is_disk_ready-grade finish_requested h = cc
is_disk_ready-grade disk_start_requested h = cc
is_disk_ready-grade disk_boot_observed h = cc
is_disk_ready-grade guest_installed_attested h = cc
is_disk_ready-grade (other_phase x) h = cc

pub unrequested-grade : (p : Phase) → startable p ≡ true → is_requested p ≡ false → grade p ≤ 0
unrequested-grade media_attached h n = omega arith
unrequested-grade installer_start_requested h n = cc
unrequested-grade new h n = cc
unrequested-grade attach_requested h n = cc
unrequested-grade finish_requested h n = cc
unrequested-grade disk_ready h n = cc
unrequested-grade disk_start_requested h n = cc
unrequested-grade disk_boot_observed h n = cc
unrequested-grade guest_installed_attested h n = cc
unrequested-grade (other_phase x) h n = cc
