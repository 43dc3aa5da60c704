-- ===== src/Qos/Errors.antt =====
-- The error numbers of the two modules, negated.
use code_snippet.Prelude.{ℤ, negsuc}

abbrev pub enoent : ℤ
enoent = negsuc 1

abbrev pub enomem : ℤ
enomem = negsuc 11

abbrev pub efault : ℤ
efault = negsuc 13

abbrev pub enodev : ℤ
enodev = negsuc 18

abbrev pub einval : ℤ
einval = negsuc 21

abbrev pub enodata : ℤ
enodata = negsuc 60

abbrev pub enobufs : ℤ
enobufs = negsuc 104
