-- ===== src/Forms/Bounds.antt =====
-- The content of every form stays within the memory that it was given.
use hexa_os_alpha_build.Forms.{Forms}
use hexa_os_alpha_build.Forms.Commands
use hexa_os_alpha_build.Forms.Dispatch
