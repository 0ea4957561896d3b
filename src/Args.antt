-- ===== src/Args.antt =====
-- args.go: the flags of the command line, and what they are made into.
pub mod Lists
pub mod Flags
pub mod Only
pub mod Parse
pub mod Ready
pub mod MergerArgument
pub mod Tests
