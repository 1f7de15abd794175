-- ===== src/Layout.antt =====
-- The physical layout: include/xTdb/constants.h and src/layout_calculator.cpp. Numbers of C++ type
-- uint32_t and uint64_t are taken mod 2 ^ 32 and 2 ^ 64 where an operation can leave the range.
pub mod Units
pub mod Calc
pub mod Valid
pub mod Offsets
