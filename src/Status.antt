-- ===== src/Status.antt =====
-- include/api/StatusCode.h: the codes that every operation reports; and `assign` of
-- include/impl/utils.h, which writes a code through a pointer that may be null.
use librocks_dll.Prelude.Tests.{ℤ, pos, negsuc}
use librocks_dll.Prelude.{Option, none, some}

abbrev pub invalid : ℤ
invalid = negsuc 4

abbrev pub no_iterator : ℤ
no_iterator = negsuc 3

abbrev pub already_exists : ℤ
already_exists = negsuc 2

abbrev pub no_transaction : ℤ
no_transaction = negsuc 1

abbrev pub closed : ℤ
closed = negsuc 0

abbrev pub ok : ℤ
ok = pos 0

abbrev pub not_found : ℤ
not_found = pos 1

abbrev pub corruption : ℤ
corruption = pos 2

abbrev pub not_supported : ℤ
not_supported = pos 3

abbrev pub invalid_argument : ℤ
invalid_argument = pos 4

abbrev pub io_error : ℤ
io_error = pos 5

abbrev pub merge_in_progress : ℤ
merge_in_progress = pos 6

abbrev pub incomplete : ℤ
incomplete = pos 7

abbrev pub shutdown_in_progress : ℤ
shutdown_in_progress = pos 8

abbrev pub timed_out : ℤ
timed_out = pos 9

abbrev pub aborted : ℤ
aborted = pos 10

abbrev pub busy : ℤ
busy = pos 11

abbrev pub expired : ℤ
expired = pos 12

abbrev pub try_again : ℤ
try_again = pos 13

abbrev pub compaction_too_large : ℤ
compaction_too_large = pos 14

abbrev pub column_family_dropped : ℤ
column_family_dropped = pos 15

abbrev pub unknown : ℤ
unknown = pos 16

-- An `int*`: null, or the value of the cell that it points to.
abbrev pub IntPtr : Type 0
IntPtr = Option ℤ

abbrev pub assign : ℤ → IntPtr → IntPtr
assign code none = none
assign code (some _) = some code
