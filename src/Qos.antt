-- ===== src/Qos.antt =====
-- kernel_module/qos/cpufreq-qos.c and kernel_module/qos/devfreq-qos.c: character devices that pass
-- bounds on frequencies to the kernel. cpuhp-qos.c is in CpuHotplug.
mod Tests
pub mod Devfreq
pub mod Api
pub mod Errors
pub mod Cpufreq
